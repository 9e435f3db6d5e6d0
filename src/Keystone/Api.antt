-- ===== src/Keystone/Api.antt =====
-- The library `keystoneclient`, as charms/keystone-k8s/src/utils/client.py uses it: the objects
-- with the attributes that are read, and the managers' methods over a state.
use sunbeam_charms.Prelude.{String, Bool, Option, List}
use sunbeam_charms.Exec.{Exec, Action}

pub record Domain : Type 0 where
  pub id : String
  pub name : String
  pub description : String
  pub enabled : Bool

pub record Project : Type 0 where
  pub id : String
  pub name : String
  pub domain_id : String
  pub description : String
  pub enabled : Bool
  pub is_domain : Bool

pub record User : Type 0 where
  pub id : String
  pub name : String
  pub domain_id : String
  pub enabled : Bool
  pub password_expires_at : Option String

pub record Role : Type 0 where
  pub id : String
  pub name : String
  pub domain_id : Option String
  pub description : Option String

pub record Service : Type 0 where
  pub id : String
  pub name : String

pub record Endpoint : Type 0 where
  pub id : String
  pub service_id : String
  pub interface : String
  pub region : String
  pub url : String
  pub enabled : Bool

-- A parameter that is an object, or its name or id, or None.
pub data Ref (A : Type 0) : Type 0 where
  object : A → Ref A
  identifier : Option String → Ref A

-- The attributes that `users.create` and `users.update` are given.
pub record UserFields : Type 0 where
  pub name : Option String
  pub domain : Option Domain
  pub password : Option String
  pub email : Option String
  pub description : Option String
  pub enabled : Bool
  pub default_project : Ref Project

-- A list may be None. Absent filters are None.
pub record Api (S : Type 0) : Type 0 where
  pub domains_list : Exec S (Option (List Domain))
  pub domains_create : String → String → Bool → Exec S Domain
  pub domains_update : Domain → Option String → String → Option Bool → Exec S Domain
  pub domains_delete : String → Action S
  pub projects_list : Option Domain → Exec S (Option (List Project))
  pub projects_create : String → String → Option Domain → Exec S Project
  pub projects_update :
      Project → Option String → Option Domain → String → Option Bool → Exec S Project
  pub projects_delete : Project → Action S
  pub users_list : Option Domain → Option Project → Exec S (Option (List User))
  pub users_create : UserFields → Exec S User
  pub users_update : User → UserFields → Exec S User
  pub users_delete : Option User → Action S
  pub roles_list : Option Domain → Exec S (Option (List Role))
  pub roles_create : String → Option Domain → Exec S Role
  pub roles_update : Role → Option String → Exec S Role
  pub roles_delete : Option Role → Action S
  pub roles_grant : Option Role → Option User → Option Domain → Option Project → Action S
  pub services_list : String → Option String → Exec S (List Service)
  pub services_create : String → String → String → Exec S Service
  pub endpoints_list :
      Option Service → Option String → Option String → Exec S (Option (List Endpoint))
  pub endpoints_update : Endpoint → String → Exec S Endpoint
  pub endpoints_create : Service → String → String → String → Exec S Endpoint
