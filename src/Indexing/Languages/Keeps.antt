-- ===== src/Indexing/Languages/Keeps.antt =====
-- The workers of index/extraction_workers.go are created once, and what they extract does not depend on
-- which of them exist already.
use agent_wayfinder.Prelude.{
  String, eq_iff, List, Option, none, some, lookup, lookup-insert, Result, ok, err, ◌≡◌, refl, sym,
  subst, ap, ◌∙◌, arith, Option-cases, [], inl, inr,
}
use agent_wayfinder.Indexing.{IndexError}
use agent_wayfinder.Indexing.Languages.{
  FileSource, Worker, Languages, Workers, new_worker_of, for_language, extract, extract_by,
  known_or_created, WorkerFor,
}

-- Every worker is the one that `NewWorker` of its language returns.
abbrev pub AreWorkers : Languages → Workers → Type 0
AreWorkers languages none = ⊥
AreWorkers languages (some workers) =
    (language : String) (worker : Worker)
    → lookup language workers ≡ some worker
    → new_worker_of (lookup language languages) ≡ some (ok worker)

pub nothing-AreWorkers : (languages : Languages) → AreWorkers languages (some [])
unfolding lookup
nothing-AreWorkers languages language worker h = cc

-- The workers after `ForLanguage`, and its answer, for what the table of workers holds.
known_or_created-AreWorkers :
    (languages : Languages) (language : String) (workers : List (String × Worker))
    → AreWorkers languages (some workers)
    → (o : Option Worker) → lookup language workers ≡ o
    → ((known_or_created languages language workers o).0
        ≡ (known_or_created languages language [] none).0)
      × AreWorkers languages (known_or_created languages language workers o).1
known_or_created-AreWorkers languages language workers h (some worker) e =
    (rw (h language worker e) refl, h)
known_or_created-AreWorkers languages language workers h none e =
    elim (Option-cases (new_worker_of (lookup language languages))) [
      | inl n ↦ rw n (refl, h)
      | inr (ok worker, n) ↦ rw n (
        refl,
        λ other w found.
            ground (
              arith,
              lookup-insert language other worker workers,
              eq_iff language other,
              h other w,
            ),
      )
      | inr (err failure, n) ↦ rw n (refl, h)
    ]

extract_by-answer :
    (languages : Languages) (language : String) (source : FileSource)
    (r : Result IndexError (Option Worker)) (v w : Workers)
    → (extract_by languages language source (r, v)).0
      ≡ (extract_by languages language source (r, w)).0
extract_by-answer languages language source (err e) v w = refl
extract_by-answer languages language source (ok (some worker)) v w = refl
extract_by-answer languages language source (ok none) v w = refl

extract_by-same :
    (languages : Languages) (language : String) (source : FileSource) (a b : WorkerFor)
    → a.0 ≡ b.0
    → (extract_by languages language source a).0 ≡ (extract_by languages language source b).0
extract_by-same languages language source (r, v) (s, w) e =
    ap (λ (t : Result IndexError (Option Worker)). (extract_by languages language source (t, v)).0)
      e
    ∙ extract_by-answer languages language source s v w

extract_by-workers :
    (languages : Languages) (language : String) (source : FileSource) (a : WorkerFor)
    → (extract_by languages language source a).1 ≡ a.1
extract_by-workers languages language source (err e, workers) = refl
extract_by-workers languages language source (ok (some worker), workers) = refl
extract_by-workers languages language source (ok none, workers) = refl

-- `extract` gives what it gives with no workers yet, and every worker stays the one of its language.
pub extract-AreWorkers :
    (languages : Languages) (language : String) (source : FileSource) (workers : Workers)
    → AreWorkers languages workers
    → ((extract languages language source workers).0
        ≡ (extract languages language source (some [])).0)
      × AreWorkers languages (extract languages language source workers).1
unfolding extract for_language lookup
extract-AreWorkers languages language source none h = absurd h
extract-AreWorkers languages language source (some workers) h =
    let (same, kept) =
      known_or_created-AreWorkers languages language workers h (lookup language workers) refl in
    let now = known_or_created languages language workers (lookup language workers) in
    (
      extract_by-same languages language source now (known_or_created languages language [] none)
          same,
      subst (AreWorkers languages) (sym (extract_by-workers languages language source now)) kept,
    )
