-- ===== src/Clusterd/Client/Errors.antt =====
-- clusterd.py: which errors of a request reach the charm.
use mathlib.Core.List.{Mem, mem-cons_self, mem-cons_of_mem}
use mathlib.Core.Path.{subst}
use sunbeam_charms.Prelude.{
  String, ◌≡◌, ◌≢◌, ap, sym, ◌∙◌, Bool, true, ◌&&◌, ◌||◌, some, List, [], ◌∷◌, ◌==◌, eq_iff, arith,
  Bool-cases, inl, inr, if◌then◌else◌,
}
use sunbeam_charms.Text.{strip_slash, concat}
use sunbeam_charms.Exec.{
  Response, handle, continue, pure, Exc, Result, ok, raised, unavailable, http_error,
}
use sunbeam_charms.Clusterd.Client.{
  Http, Member, Request, get, request, ready, find_member, is_status, remote_not_found, remove_node,
  false_if_unavailable, delete, ignore_not_found,
}

-- A member that is found is in the list and has the name.
pub find_member-ok :
    (name : String) (members : List Member) (m : Member)
    → find_member name members ≡ ok m
    → Mem m members × (m.name ≡ name)
unfolding find_member
find_member-ok name [] m h = cc
find_member-ok name (k ∷ rest) m h = elim (Bool-cases (k.name == name)) [
  | inl e ↦
      let q : k ≡ m = ground arith in
      (
        subst (λ x. Mem x (k ∷ rest)) q mem-cons_self,
        ap (λ (x : Member). x.name) (sym q) ∙ (eq_iff k.name name).0 e,
      )
  | inr e ↦ let (i, n) = find_member-ok name rest m (rw e at h) in (mem-cons_of_mem k i, n)
]

module _ {W : Type 0} (http : Http W) where
  -- If the daemon answers the readiness request with code 503, for which `raise_for_status` has an
  -- error, then `ready` raises that HTTP error, and neither answers False nor reports that the
  -- daemon is unavailable.
  pub ready-raises_503 :
      (w v : W) (r : Response) (m : String)
      → http.send (record { method = get; path = "core/1.0/ready"; text = ""; fields = [] }) w
        ≡ (ok r, v)
      → r.status_code ≡ 503
      → http.status_error r ≡ some m
      → ready http w ≡ (raised (http_error m (some r)), v)
  unfolding ready request strip_slash
  ready-raises_503 w v r m s c e = rw (s, e)

  not_unavailable :
      (m : String) (e : Exc) (w : W) → (false_if_unavailable e w).0 ≢ raised (unavailable m)
  not_unavailable m e w h = ground arith

  -- `ready` answers False where the daemon cannot be reached: it never raises "unavailable".
  pub ready-ne-unavailable : (w : W) (m : String) → (ready http w).0 ≢ raised (unavailable m)
  unfolding ready
  ready-ne-unavailable w m = go (request http probe w)
    where
      probe : Request
      probe = record { method = get; path = "/core/1.0/ready"; text = ""; fields = [] }

      go :
          (r : Result Response × W)
          → (handle false_if_unavailable (continue (λ _. pure true) r)).0 ≢ raised (unavailable m)
      go (ok r, v) h = cc
      go (raised e, v) h = not_unavailable m e v h

  -- Removing a node whose deletion the daemon answers with an error code returns, if absence is
  -- allowed and the answer says that there is no such node (code 404, or code 500 with one of three
  -- texts); else the HTTP error is raised. The answer's code 503 is among the errors.
  pub remove_node-answered :
      (name m : String) (force allow_not_found : Bool) (w v : W) (r : Response)
      → http.send
          (record {
            method = delete;
            path = strip_slash (
                concat
                  ("/core/1.0/cluster/" ∷ name ∷ "?force=" ∷ (if force then "1" else "0") ∷ []));
            text = "";
            fields = [];
          })
          w
        ≡ (ok r, v)
      → http.status_error r ≡ some m
      → remove_node http name force allow_not_found w ≡ (
        if (is_status 404 r || remote_not_found name r) && allow_not_found
            then ok tt
            else raised (http_error m (some r)),
        v,
      )
  unfolding remove_node request ignore_not_found
  remove_node-answered name m force allow_not_found w v r s e = rw (s, e) (ground arith)
