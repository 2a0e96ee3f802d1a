-- ===== src/Indexer/System/Writes.antt =====
-- The steps of the indexer that write one workspace, as the invariant sees them.
use agent_wayfinder.Prelude.{
  String, List, [], ◌∷◌, ◌≡◌, inl, inr, sym, false, eq_cases, none, some, lookup, delete,
  lookup-insert, lookup-delete, ◌∙◌, ◌==◌, ap, subst, ℕ,
}
use agent_wayfinder.Indexer.{Worker}
use agent_wayfinder.Indexer.Queue.{set_worker}
use agent_wayfinder.Indexer.System.{Call, System, call_at, drop_call}
use agent_wayfinder.Indexer.System.Worker.{IsConsistent}
use agent_wayfinder.Indexer.System.Cells.{
  calls_of, IsCell, Inv, calls_of-here, calls_of-elsewhere, calls_of-drop_elsewhere,
}

-- A step that writes one workspace keeps the invariant if what it writes there is a cell.
module _ (s : System) (h : Inv s) (ws : String) where
  pub write :
      (w : Worker)
      → IsCell (some w) (calls_of ws s.calls)
      → Inv (record s { manager = set_worker s.manager ws w })
  unfolding set_worker
  write w c = record {
    cell = λ j.
        rw lookup-insert
          (elim (eq_cases ws j) [ inl (t, e) ↦ rw (t, ← e) c | inr (f, _) ↦ rw f (h.cell j) ]);
  }

  pub write_both :
      (w : Worker) (call : Call) (begun : ℕ)
      → call.workspace ≡ ws
      → calls_of ws s.calls ≡ []
      → IsConsistent w (some call.paths)
      → Inv
          (record s { manager = set_worker s.manager ws w; calls = call ∷ s.calls; begun = begun })
  unfolding set_worker
  write_both w call begun here empty c = record {
    cell = λ j. rw lookup-insert (elim (eq_cases ws j) [
      | inl (t, e) ↦ rw t (
        some call,
        calls_of-here j call s.calls (here ∙ e)
            ∙ ap (λ (l : List Call). call ∷ l)
                (subst (λ (k : String). calls_of k s.calls ≡ []) e empty),
        c,
      )
      | inr (f, _) ↦ rw f (
          subst (IsCell (lookup j s.manager.workers))
            (sym (
              calls_of-elsewhere j call s.calls
                (subst (λ (k : String). (k == j) ≡ false) (sym here) f)))
            (h.cell j))
    ]);
  }

  pub write_end :
      (w : Worker) (index : ℕ) (call : Call) (log : List Call)
      → call.workspace ≡ ws
      → call_at index s.calls ≡ some call
      → calls_of ws (drop_call index s.calls) ≡ []
      → IsConsistent w none
      → Inv (record s {
        manager = set_worker s.manager ws w;
        calls = drop_call index s.calls;
        delivered = log;
      })
  unfolding set_worker
  write_end w index call log here at_index empty c = record {
    cell = λ j. rw lookup-insert (elim (eq_cases ws j) [
      | inl (t, e) ↦ rw (t, ← e) (none, empty, c)
      | inr (f, _) ↦ rw f (
          subst (IsCell (lookup j s.manager.workers))
            (sym (
              calls_of-drop_elsewhere j index call s.calls at_index
                (subst (λ (k : String). (k == j) ≡ false) (sym here) f)))
            (h.cell j))
    ]);
  }

  pub remove :
      calls_of ws s.calls ≡ []
      → Inv (record s { manager = record s.manager { workers = delete ws s.manager.workers } })
  remove c = record {
    cell = λ j.
        rw lookup-delete
          (elim (eq_cases ws j) [ inl (t, e) ↦ rw (t, ← e) c | inr (f, _) ↦ rw f (h.cell j) ]);
  }

-- What the invariant says where the workspace has a worker and where it has none.
module _ (s : System) (ws : String) where
  pub consistent :
      (w : Worker)
      → Inv s
      → lookup ws s.manager.workers ≡ some w
      → IsCell (some w) (calls_of ws s.calls)
  consistent w h e = rw e at (h.cell ws)

  pub no_call : Inv s → lookup ws s.manager.workers ≡ none → calls_of ws s.calls ≡ []
  no_call h e = rw e at (h.cell ws)
