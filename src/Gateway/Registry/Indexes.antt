-- ===== src/Gateway/Registry/Indexes.antt =====
-- The two indexes of the registry agree.
use stock_scanner.Prelude.{
  String, ◌≡◌, sym, subst, true, Option, none, some, List, [], ◌∷◌, if◌then◌else◌, is_empty, arith,
  str_eq, eq_iff, Bool-cases, Option-cases, inl, inr,
}
use stock_scanner.Dict.{Dict, lookup, insert, remove, get_or}
use stock_scanner.Dict.Laws.{lookup-insert, lookup-remove, lookup-empty}
use stock_scanner.Gateway.Registry.{
  Handle, Registry, new_connection_registry, add, remove_for_user, remove_connection,
}

-- A connection among those of a user.
abbrev pub owned : String → Option Handle → Option Handle
owned user_id none = none
owned user_id (some conn) = if str_eq conn.user_id user_id then some conn else none

abbrev pub IsNamed : String → Option Handle → Type 0
IsNamed id none = Unit {0}
IsNamed id (some conn) = conn.id ≡ id

-- Each user's connections are the user's among all, under their own IDs.
pub record IsIndexed (r : Registry) : Type 0 where
  pub agree :
      (user_id id : String)
      → lookup id (get_or [] user_id r.by_user) ≡ owned user_id (lookup id r.connections)
  pub own_id : (id : String) → IsNamed id (lookup id r.connections)

lookup_or-insert :
    (u v : String) (m : Dict Handle) (by_user : Dict (Dict Handle))
    → get_or [] v (insert u m by_user) ≡ (if str_eq u v then m else get_or [] v by_user)
unfolding get_or
lookup_or-insert u v m by_user = ground (arith, lookup-insert u v m by_user)

lookup-none_left : (m : Dict Handle) (id : String) → is_empty m ≡ true → lookup id m ≡ none
lookup-none_left [] id h = lookup-empty id
lookup-none_left (e ∷ m) id h = cc

-- What a removal leaves of a user's connections
remove_for_user_lem :
    (by_user : Dict (Dict Handle)) (u v id j : String)
    → lookup j (get_or [] v (remove_for_user by_user u id)) ≡ (
        if str_eq u v
        then lookup j (remove id (get_or [] v by_user))
        else lookup j (get_or [] v by_user))
unfolding remove_for_user get_or
remove_for_user_lem by_user u v id j = elim (Option-cases (lookup u by_user)) [
  | inl e ↦
      let unset : Dict Handle = [] in
      ground (arith, eq_iff u v, lookup-remove id j unset, lookup-empty {V = Handle} j)
  | inr (m, e) ↦ elim (Bool-cases (is_empty (remove id m))) [
    | inl last ↦ ground (
      arith,
      eq_iff u v,
      lookup-remove u v by_user,
      lookup-none_left (remove id m) j,
      lookup-empty {V = Handle} j,
    )
    | inr more ↦ ground (arith, eq_iff u v, lookup-insert u v (remove id m) by_user)
  ]
]

IsNamed-insert :
    (conn : Handle) (id : String) (m : Dict Handle)
    → IsNamed id (lookup id m)
    → IsNamed id (lookup id (insert conn.id conn m))
IsNamed-insert conn id m h =
    subst (IsNamed id) (sym (lookup-insert conn.id id conn m))
      (elim (Bool-cases (str_eq conn.id id)) [
        | inl e ↦ rw e ((eq_iff conn.id id).0 e)
        | inr e ↦ rw e h
      ])

IsNamed-remove :
    (id j : String) (m : Dict Handle) → IsNamed j (lookup j m) → IsNamed j (lookup j (remove id m))
IsNamed-remove id j m h =
    subst (IsNamed j) (sym (lookup-remove id j m))
      (elim (Bool-cases (str_eq id j)) [ inl e ↦ rw e tt | inr e ↦ rw e h ])

add-IsIndexed :
    (r : Registry) (conn : Handle)
    → lookup conn.id r.connections ≡ none
    → IsIndexed r
    → IsIndexed (add r conn)
unfolding add
add-IsIndexed r conn fresh v = record {
  agree = λ u id. ground (
    arith,
    v.agree u id,
    v.agree conn.user_id id,
    lookup_or-insert conn.user_id u (insert conn.id conn (get_or [] conn.user_id r.by_user))
        r.by_user,
    lookup-insert conn.id id conn (get_or [] conn.user_id r.by_user),
    lookup-insert conn.id id conn r.connections,
    eq_iff conn.user_id u,
    eq_iff conn.id id,
  );
  own_id = λ id. IsNamed-insert conn id r.connections (v.own_id id);
}

remove_connection-IsIndexed :
    (r : Registry) (id : String) → IsIndexed r → IsIndexed (remove_connection r id)
unfolding remove_connection
remove_connection-IsIndexed r id v = elim (Option-cases (lookup id r.connections)) [
  | inl e ↦ rw (e, remove_connection) v
  | inr (conn, e) ↦
      rw (e, remove_connection)
        (record {
          agree = λ u j. ground (
            arith,
            v.agree u j,
            v.agree u id,
            remove_for_user_lem r.by_user conn.user_id u id j,
            lookup-remove id j (get_or [] u r.by_user),
            lookup-remove id j r.connections,
            eq_iff conn.user_id u,
            eq_iff id j,
          );
          own_id = λ j. IsNamed-remove id j r.connections (v.own_id j);
        })
]

pub data Change : Type 0 where
  added : Handle → Change
  removed : String → Change

unfoldable pub apply : Registry → Change → Registry
apply r (added conn) = add r conn
apply r (removed id) = remove_connection r id

pub apply_all : Registry → List Change → Registry
apply_all r [] = r
apply_all r (x ∷ xs) = apply_all (apply r x) xs

-- A connection is added under an ID that no connection has.
abbrev IsFresh : Registry → Change → Type 0
IsFresh r (added conn) = lookup conn.id r.connections ≡ none
IsFresh r (removed id) = Unit {0}

abbrev pub AllFresh : Registry → List Change → Type 0
AllFresh r [] = Unit {0}
AllFresh r (x ∷ xs) = IsFresh r x × AllFresh (apply r x) xs

kept : (r : Registry) (xs : List Change) → AllFresh r xs → IsIndexed r → IsIndexed (apply_all r xs)
unfolding apply_all apply
kept r [] f v = v
kept r (added conn ∷ xs) f v = kept (add r conn) xs f.1 (add-IsIndexed r conn f.0 v)
kept r (removed id ∷ xs) f v =
    kept (remove_connection r id) xs f.1 (remove_connection-IsIndexed r id v)

-- After any additions and removals on a new registry, each addition under an ID that is free then:
-- the connections of a user are exactly the registered ones of that user, under their own IDs.
pub apply_all-IsIndexed :
    (xs : List Change)
    → AllFresh new_connection_registry xs
    → IsIndexed (apply_all new_connection_registry xs)
unfolding new_connection_registry get_or
apply_all-IsIndexed xs f = kept new_connection_registry xs f (record {
  agree = λ u id. ground (arith, lookup-empty {V = Dict Handle} u, lookup-empty {V = Handle} id);
  own_id = λ id. subst (IsNamed id) (sym (lookup-empty {V = Handle} id)) tt;
})
