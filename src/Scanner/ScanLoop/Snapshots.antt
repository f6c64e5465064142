-- ===== src/Scanner/ScanLoop/Snapshots.antt =====
-- internal/scanner/state.go: the snapshot of a cycle has every state, under its symbol.
use stock_scanner.Prelude.{
  ◌≡◌, refl, sym, ◌∙◌, String, some, [], ◌∷◌, ◌++◌, append_assoc, append-nil, All, eq_refl,
}
use stock_scanner.Dict.{Dict, lookup, keys, Fresh, IsMap}
use stock_scanner.Dict.Laws.{lookup-insert}
use stock_scanner.Scanner.State.{SymbolState}
use stock_scanner.Scanner.Snapshot.{StateSnapshot, add_snapshots, symbol_snapshot}

module _ {F : Type 0} where
  pub symbols-add_snapshots :
      (ss : Dict (SymbolState F)) (snapshot : StateSnapshot F)
      → (add_snapshots ss snapshot).symbols ≡ snapshot.symbols ++ keys ss
  unfolding add_snapshots
  symbols-add_snapshots [] snapshot = sym (append-nil snapshot.symbols)
  symbols-add_snapshots ((j, st) ∷ ss) snapshot =
      symbols-add_snapshots ss _ ∙ append_assoc snapshot.symbols (j ∷ []) (keys ss)

  lookup-add_snapshots :
      (ss : Dict (SymbolState F)) (snapshot : StateSnapshot F) (k : String)
      → Fresh k ss
      → lookup k (add_snapshots ss snapshot).states ≡ lookup k snapshot.states
  unfolding add_snapshots
  lookup-add_snapshots [] snapshot k f = refl
  lookup-add_snapshots ((j, st) ∷ ss) snapshot k f =
      lookup-add_snapshots ss _ k f.1
      ∙ lookup-insert j k (symbol_snapshot j st) snapshot.states
      ∙ rw (f.0) refl

  pub snapshots_found :
      (ss : Dict (SymbolState F)) (snapshot : StateSnapshot F)
      → IsMap ss
      → All (λ e. lookup e.0 (add_snapshots ss snapshot).states ≡ some (symbol_snapshot e.0 e.1)) ss
  unfolding add_snapshots
  snapshots_found [] snapshot v = tt
  snapshots_found ((j, st) ∷ ss) snapshot v = (
    lookup-add_snapshots ss _ j v.0
        ∙ lookup-insert j j (symbol_snapshot j st) snapshot.states
        ∙ rw (eq_refl j) refl,
    snapshots_found ss _ v.1,
  )
