-- ===== src/Control/Journal/Changes.antt =====
-- What an append changes in memory.
use vector_transfer.Base.{ℕ, String, ◌≡◌, refl, ◌⊎◌, inl, inr, Option, none, some, List}
use vector_transfer.Base.Result.{Error, journal_failed, message, Result, ok, err}
use vector_transfer.Base.Dict.{insert}
use vector_transfer.Control.Job.{Job}
use vector_transfer.Control.Journal.{
  Codec, Store, Io, append, build_entry, write_entry, Outcome, written, broken,
}

-- The job is stored under its ID, stamped with the time, or the append fails and no job changes.
abbrev pub Appended : ℕ → Job → Store → Result (Unit {0}) × Store → Type 0
Appended now j s r =
    ((r.0 ≡ ok tt)
      × (r.1.jobs ≡ insert j.id (record j { updated_at = now }) s.jobs)
      × (r.1.poison ≡ s.poison)
      × (s.poison ≡ none))
    ⊎ ((e : Error) × (r.0 ≡ err e) × (r.1.jobs ≡ s.jobs))

pub append_lem :
    (c : Codec) (io : Io) (j : Job) (kind actor text batch : String) (s : Store)
    → Appended io.now j s (append c io j kind actor text batch s)
unfolding append
append_lem c io j kind actor text batch s = by_poison s.poison refl
  where
    by_write :
        (b : Option (List ℕ)) (o : Outcome)
        → s.poison ≡ none
        → Appended io.now j s (write_entry o b (build_entry c io.now j kind actor text batch s) s)
    by_write none o p = inr (message "json: unsupported value", refl, refl)
    by_write (some b) written p = inl (refl, refl, refl, p)
    by_write (some b) (broken n) p = inr (journal_failed, refl, refl)

    by_poison :
        (o : Option Error)
        → s.poison ≡ o
        → Appended io.now j s (elim o [
          | some failure ↦ (err failure, s)
          | none ↦
              write_entry io.write
                (c.marshal (build_entry c io.now j kind actor text batch s))
                (build_entry c io.now j kind actor text batch s)
                s
        ])
    by_poison none p =
        by_write (c.marshal (build_entry c io.now j kind actor text batch s)) io.write p
    by_poison (some e) p = inr (e, refl, refl)
