-- ===== src/Users/Rotated.antt =====
-- ops-sunbeam/ops_sunbeam/relation_handlers.py: what a response to a request for a user leaves.
use Prim.Native.Char.{Char, code}
use Prim.Native.String as Str
use text.Mathlib.TextLemmas.{cons-append, head-eq_of_cons-eq}
use sunbeam_charms.Prelude.{
  String, ◌≡◌, refl, ap, ◌∙◌, Bool, true, false, not, ◌&&◌, keep, ◌||◌, Option, some, List, [], ◌∷◌,
  ◌++◌, arith, ◌==◌, eq_iff, eq_refl, ◌⊎◌, Bool-cases, inl, inr,
}
use sunbeam_charms.Dict.{Dict, lookup, contains, last_value, or_else}
use sunbeam_charms.Exec.{Result, ok, continue_done}
use sunbeam_charms.Endpoints.{if_given}
use sunbeam_charms.Users.{
  User, Host, Response, credentials, same_content, label, config_label, ensure_credentials,
  get_credentials, get_config_credentials, update_config_credentials, old_users,
  add_user_to_delete_user_list, all_succeeded, process_create_user_response, deleted_users,
  process_delete_user_response,
}

-- What Juju documents: reading a secret changes nothing, and what was written to a secret is read
-- from it; the data of the application reads back what was written; neither touches the other. A
-- list that JSON has written is read as it was, and is not written as the empty text.
pub record Documented {S : Type 0} (h : Host S) : Type 0 where
  pub content : S → String → Result (Dict String)
  pub reads : (id : String) (s : S) → h.get_content id s ≡ (content s id, s)
  pub sets : (id : String) (c : Dict String) (s : S) → (h.set_content id c s).0 ≡ ok tt
  pub content_set :
      (id : String) (c : Dict String) (s : S) → content ((h.set_content id c s).1) id ≡ ok c
  pub leader_get_set_content :
      (k id : String) (c : Dict String) (s : S)
      → h.leader_get k ((h.set_content id c s).1) ≡ h.leader_get k s
  pub leader_sets : (d : Dict String) (s : S) → (h.leader_set d s).0 ≡ ok tt
  pub leader_get_set :
      (k : String) (d : Dict String) (s : S)
      → h.leader_get k ((h.leader_set d s).1) ≡ or_else (last_value k d) (h.leader_get k s)
  pub content_leader_set :
      (id : String) (d : Dict String) (s : S) → content ((h.leader_set d s).1) id ≡ content s id
  pub loads-dumps : (xs : List String) → h.loads (h.dumps xs) ≡ xs
  pub dumps_not_empty : (xs : List String) → (h.dumps xs == "") ≡ false

contains-append :
    (n : String) (xs : List String) (x : String)
    → contains n (xs ++ x ∷ []) ≡ (contains n xs || (x == n))
unfolding contains
contains-append n [] x = ground arith
contains-append n (y ∷ ys) x = rw (contains-append n ys x) (ground arith)

module _ {S : Type 0} (u : User) (h : Host S) (d : Documented h) where
  -- A secret of the application that holds credentials.
  abbrev pub Holds : String → String → String → String → S → Type 0
  Holds k id username password s =
      (h.leader_get k s ≡ some id)
      × ((id == "") ≡ false)
      × (d.content s id ≡ ok (credentials username password))

  get_config_credentials-Holds :
      (id username password : String) (s : S)
      → Holds (config_label u h) id username password s
      → get_config_credentials u h s ≡ (ok (some (username, password)), s)
  unfolding get_config_credentials lookup
  get_config_credentials-Holds id username password s (g, n, c) =
      rw g (rw n (rw (d.reads id s) (rw c refl)))

  pub get_credentials-Holds :
      (id username password : String) (s : S)
      → Holds (label u h) id username password s
      → get_credentials u h s ≡ (ok (username, password), s)
  unfolding get_credentials ensure_credentials lookup
  get_credentials-Holds id username password s (g, n, c) =
      rw g (rw n (rw (d.reads id s) (rw c refl)))

  update_config_credentials-Holds :
      (uid new new_password cid old old_password : String) (s : S)
      → Holds (label u h) uid new new_password s
      → Holds (config_label u h) cid old old_password s
      → same_content (credentials old old_password) (credentials new new_password) ≡ false
      → update_config_credentials u h s
        ≡ (ok true, (h.set_content cid (credentials new new_password) s).1)
  unfolding update_config_credentials
  update_config_credentials-Holds uid new new_password cid old old_password s a (g, n, c) e =
      rw (get_credentials-Holds uid new new_password s a) (
        rw g (
          rw (d.reads cid s) (
            rw c (
              rw e (
                continue_done (λ t. (ok true, t))
                  (h.set_content cid (credentials new new_password) s)
                  (d.sets cid (credentials new new_password) s))))))

  add_user-lists :
      (user : String) (s : S)
      → let t = (add_user_to_delete_user_list u h user s).1 in
        ((add_user_to_delete_user_list u h user s).0 ≡ ok tt)
        × ((n : String)
            → contains n (old_users u h t) ≡ (contains n (old_users u h s) || (user == n)))
  unfolding add_user_to_delete_user_list last_value
  add_user-lists user s = elim (Bool-cases (contains user (old_users u h s))) [
    | inl e ↦ rw e (refl, λ n. ground (arith, eq_iff user n))
    | inr e ↦ rw e (d.leader_sets _ s, λ n. listed n)
  ]
    where
      all : List String
      all = old_users u h s ++ user ∷ []

      listed :
          (n : String)
          → contains n (old_users u h ((h.leader_set (("old_users", h.dumps all) ∷ []) s).1))
            ≡ (contains n (old_users u h s) || (user == n))
      listed n = rw (d.leader_get_set "old_users" (("old_users", h.dumps all) ∷ []) s) (
          rw (d.dumps_not_empty all)
            (rw (d.loads-dumps all) (contains-append n (old_users u h s) user)))

  label_new : ("old_users" == config_label u h) ≡ false
  unfolding config_label
  label_new = elim (Bool-cases ("old_users" == Str.◌++◌ "configure-credential-" u.username)) [
    | inl e ↦
        let first : Path Char "o" "c" = head-eq_of_cons-eq (
          (eq_iff "old_users" (Str.◌++◌ "configure-credential-" u.username)).0 e
          ∙ cons-append "c" "onfigure-credential-" u.username) in
        absurd (omega (arith, ap code first))
    | inr e ↦ e
  ]

  -- Listing a user leaves the credentials of the configuration as they are.
  add_user-Holds :
      (user id username password : String) (s : S)
      → Holds (config_label u h) id username password s
      → Holds (config_label u h) id username password ((add_user_to_delete_user_list u h user s).1)
  unfolding add_user_to_delete_user_list last_value
  add_user-Holds user id username password s (g, n, c) =
      elim (Bool-cases (contains user (old_users u h s))) [
        | inl e ↦ rw e (g, n, c)
        | inr e ↦ rw e (d.leader_get_set _ _ s ∙ rw label_new g, n, d.content_leader_set id _ s ∙ c)
      ]

  -- If Juju works as documented, all operations of the response succeeded and both secrets hold
  -- credentials, which differ, the handler returns, the configuration gets the new credentials, and
  -- the name that it had is listed for deletion beside the names that were listed, whatever the new
  -- name is.
  pub process_create_user_response-rotates :
      (uid new new_password cid old old_password : String) (s : S) (response : Response)
      → all_succeeded u h response.ops ≡ true
      → Holds (label u h) uid new new_password s
      → Holds (config_label u h) cid old old_password s
      → same_content (credentials old old_password) (credentials new new_password) ≡ false
      → let (result, t) = process_create_user_response u h response s in
        (result ≡ ok tt)
        × (get_config_credentials u h t ≡ (ok (some (new, new_password)), t))
        × ((n : String)
            → contains n (old_users u h t) ≡ (contains n (old_users u h s) || (old == n)))
  unfolding process_create_user_response old_users
  process_create_user_response-rotates uid new new_password cid old old_password s response z a b
        e =
      rw z (
        rw (get_config_credentials-Holds cid old old_password s b) (
          rw (update_config_credentials-Holds uid new new_password cid old old_password s a b e)
            (settled a b)))
    where
      written : Dict String
      written = credentials new new_password

      changed : S
      changed = (h.set_content cid written s).1

      settled :
          Holds (label u h) uid new new_password s
          → Holds (config_label u h) cid old old_password s
          → let t = (add_user_to_delete_user_list u h old changed).1 in
            ((add_user_to_delete_user_list u h old changed).0 ≡ ok tt)
            × (get_config_credentials u h t ≡ (ok (some (new, new_password)), t))
            × ((n : String)
                → contains n (old_users u h t) ≡ (contains n (old_users u h s) || (old == n)))
      settled a (g, n, c) =
          let (done, lists) = add_user-lists old changed in
          let now : Holds (config_label u h) cid new new_password changed = (
            d.leader_get_set_content (config_label u h) cid written s ∙ g,
            n,
            d.content_set cid written s,
          ) in
          (
            done,
            get_config_credentials-Holds cid new new_password _
                (add_user-Holds old cid new new_password changed now),
            λ x.
                lists x
                ∙ ap (λ (o : Option String). contains x (if_given o h.loads []) || (old == x))
                    (d.leader_get_set_content "old_users" cid written s),
          )

contains-keep :
    (n : String) (test : String → Bool) (xs : List String)
    → contains n (keep test xs) ≡ (contains n xs && test n)
unfolding contains
contains-keep n test [] = refl
contains-keep n test (x ∷ xs) =
    kept (test x) (keep test xs)
    ∙ (ap (λ b. (test x && (x == n)) || b) (contains-keep n test xs) ∙ same (Bool-cases (x == n)))
  where
    kept :
        (b : Bool) (rest : List String)
        → contains n (elim b [ true ↦ x ∷ rest | false ↦ rest ])
          ≡ ((b && (x == n)) || contains n rest)
    kept true rest = refl
    kept false rest = refl

    same :
        ((x == n) ≡ true) ⊎ ((x == n) ≡ false)
        → ((test x && (x == n)) || (contains n xs && test n))
          ≡ (((x == n) || contains n xs) && test n)
    same (inl e) = rw ((eq_iff x n).0 e) (rw (eq_refl n) (ground arith))
    same (inr e) = rw e (ground arith)

module _ {S : Type 0} (u : User) (h : Host S) (d : Documented h) where
  -- If Juju works as documented and each entry with the code 0 has a value, the handler of a
  -- response to a request for deletion returns, and the list has just the names that it had and
  -- that the response does not report as deleted.
  pub process_delete_user_response-keeps :
      (s : S) (response : Response) (deleted : List String)
      → deleted_users u h response.ops ≡ ok deleted
      → let (result, t) = process_delete_user_response u h response s in
        (result ≡ ok tt)
        × ((n : String)
            → contains n (old_users u h t)
              ≡ (contains n (old_users u h s) && not (contains n deleted)))
  unfolding process_delete_user_response last_value
  process_delete_user_response-keeps s response deleted e = rw e (d.leader_sets _ s, listed)
    where
      left : List String
      left = keep (λ x. not (contains x deleted)) (old_users u h s)

      listed :
          (n : String)
          → contains n (old_users u h ((h.leader_set (("old_users", h.dumps left) ∷ []) s).1))
            ≡ (contains n (old_users u h s) && not (contains n deleted))
      listed n = rw (d.leader_get_set "old_users" (("old_users", h.dumps left) ∷ []) s) (
          rw (d.dumps_not_empty left) (
            rw (d.loads-dumps left)
              (contains-keep n (λ x. not (contains x deleted)) (old_users u h s))))
