-- ===== src/Gateway/Registry.antt =====
-- internal/wsgateway/registry.go: ConnectionRegistry. Each method runs under the registry's mutex.
-- A pointer to a connection is stood for by the fields that never change, its ID and its user.
pub mod Indexes
use stock_scanner.Prelude.{
  ℕ, String, Bool, true, false, Option, none, some, List, [], ◌∷◌, if◌then◌else◌, is_empty, length,
}
use stock_scanner.Dict.{Dict, lookup, insert, remove, get_or, values}

pub record Handle : Type 0 where
  pub id : String
  pub user_id : String

pub record Registry : Type 0 where
  pub connections : Dict Handle
  pub by_user : Dict (Dict Handle)

unfoldable pub new_connection_registry : Registry
new_connection_registry = record { connections = []; by_user = [] }

-- The nil map of a new user reads as the empty one.
unfoldable pub add : Registry → Handle → Registry
unfolding get_or
add r conn = record {
  connections = insert conn.id conn r.connections;
  by_user = insert conn.user_id (insert conn.id conn (get_or [] conn.user_id r.by_user)) r.by_user;
}

-- A user's entry goes when it has no connection left.
unfoldable pub remove_for_user : Dict (Dict Handle) → String → String → Dict (Dict Handle)
remove_for_user by_user user_id connection_id = elim (lookup user_id by_user) [
  | none ↦ by_user
  | some conns ↦
      let left = remove connection_id conns in
      if is_empty left then remove user_id by_user else insert user_id left by_user
]

unfoldable pub remove_connection : Registry → String → Registry
unfolding remove_for_user
remove_connection r connection_id = elim (lookup connection_id r.connections) [
  | none ↦ r
  | some conn ↦ record {
    connections = remove connection_id r.connections;
    by_user = remove_for_user r.by_user conn.user_id connection_id;
  }
]

unfoldable pub get : Registry → String → Option Handle
get r connection_id = lookup connection_id r.connections

unfoldable pub get_by_user : Registry → String → List Handle
unfolding get_or
get_by_user r user_id = values (get_or [] user_id r.by_user)

unfoldable pub get_all : Registry → List Handle
get_all r = values r.connections

unfoldable pub count : Registry → ℕ
count r = length r.connections

unfoldable pub count_by_user : Registry → String → ℕ
unfolding get_or
count_by_user r user_id = length (get_or [] user_id r.by_user)
