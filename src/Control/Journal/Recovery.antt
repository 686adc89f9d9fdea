-- ===== src/Control/Journal/Recovery.antt =====
-- What reopening the journal gives after an append that may have been cut short.
use vector_transfer.Base.{
  ℕ, ◌≤◌, String, ◌≡◌, refl, sym, ap, ◌∙◌, ◌⊎◌, inl, inr, Bool, true, false, none, some, List, [],
  ◌∷◌, ◌++◌, append-nil, arith, leb, eqb, leb→le, leb→lt, Bool-cases, Option-cases, length, take,
  length-append, ==_refl, take-all, take-append_left, any-take,
}
use vector_transfer.Base.Result.{message, Result, ok, err}
use vector_transfer.Control.Job.{Job}
use vector_transfer.Control.Journal.{
  Entry, Codec, Store, newline, entry_hash, build_entry, commit, is_linked, accept, replay_loop,
  replay, write_line, Outcome, written, broken, Io, append, empty_store,
}
use vector_transfer.Control.Journal.Accept.{
  IsCodec, HasValidTexts, IsJournal, grow, IsJournal-poison, replay-IsJournal, replay_loop-torn,
}

-- The entry that `append` builds passes the journal's test.
built_is_linked :
    (c : Codec) (now : ℕ) (j : Job) (kind actor text batch : String) (s : Store)
    → is_linked c (build_entry c now j kind actor text batch s) s ≡ true
unfolding is_linked build_entry
built_is_linked c now j kind actor text batch s = ground (
  arith,
  ==_refl s.hash,
  ==_refl j.id,
  ==_refl (entry_hash c (build_entry c now j kind actor text batch s)),
)

module _ {c : Codec} {valid : String → Bool} (law : IsCodec valid c) where
  -- Its line is accepted.
  built_accept :
      (e : Entry) (b : List ℕ) (s : Store)
      → HasValidTexts valid e
      → is_linked c e s ≡ true
      → c.marshal e ≡ some b
      → accept c (b ++ newline ∷ []) s ≡ ok (commit (b ++ newline ∷ []) e s)
  unfolding accept
  built_accept e b s utf8 linked m = ground (arith, law.reads e b utf8 m, linked)

  pub replay_self : {s : Store} → IsJournal c s → replay c true s.file ≡ ok s
  unfolding replay
  replay_self {s} log =
      ap (λ f. replay_loop c true f [] empty_store) (sym (append-nil s.file))
      ∙ replay-IsJournal true [] log
      ∙ (unfold replay_loop in refl)

  module _ (io : Io) (j : Job) (kind actor text batch : String) (s : Store) (log : IsJournal c s)
      (utf8 : HasValidTexts valid (build_entry c io.now j kind actor text batch s)) where
    -- Without a write failure, and where the entry can be encoded.
    abbrev entry : Entry
    entry = build_entry c io.now j kind actor text batch s

    abbrev stored : List ℕ → Store
    stored b = commit (b ++ newline ∷ []) entry s

    stored-IsJournal : (b : List ℕ) → c.marshal entry ≡ some b → IsJournal c (stored b)
    stored-IsJournal b m =
        grow {s = s} {t = stored b} b log (law.one_line entry b m)
          (built_accept entry b s utf8 (built_is_linked c io.now j kind actor text batch s) m)

    replay-stored :
        (b : List ℕ) → c.marshal entry ≡ some b → replay c true (stored b).file ≡ ok (stored b)
    replay-stored b m = replay_self (stored-IsJournal b m)

    -- A torn line leaves the store as it was.
    replay-torn :
        (n : ℕ) (b : List ℕ)
        → c.marshal entry ≡ some b
        → n ≤ length b
        → replay c true (s.file ++ take n (b ++ newline ∷ [])) ≡ ok s
    unfolding replay
    replay-torn n b m short =
        ap (λ t. replay_loop c true (s.file ++ t) [] empty_store)
          (take-append_left n b (newline ∷ []) short)
        ∙ replay-IsJournal true (take n b) log
        ∙ replay_loop-torn c true (take n b) s refl
            (any-take (λ x. eqb x newline) n b (law.one_line entry b m))

    append-unencodable :
        c.marshal entry ≡ none
        → append c io j kind actor text batch s ≡ (err (message "json: unsupported value"), s)
    unfolding append
    append-unencodable m = ground (arith, IsJournal-poison log, m)

    append-encodable :
        (b : List ℕ)
        → c.marshal entry ≡ some b
        → append c io j kind actor text batch s ≡ write_line io.write (b ++ newline ∷ []) entry s
    unfolding append
    append-encodable b m = ground (arith, IsJournal-poison log, m)

    -- The store that reopening the file of `s'` gives, after an append with the result `r`.
    abbrev Reopens : Result (Unit {0}) → Store → Store → Type 0
    Reopens r s' full =
        (t : Store) × (replay c true s'.file ≡ ok t)
        × IsJournal c t
        × ((t ≡ s) ⊎ (t ≡ full))
        × (r ≡ ok tt → t ≡ s')

    write-Reopens :
        (outcome : Outcome) (b : List ℕ)
        → c.marshal entry ≡ some b
        → Reopens
            (write_line outcome (b ++ newline ∷ []) entry s).0
            (write_line outcome (b ++ newline ∷ []) entry s).1
            (stored b)
    unfolding write_line
    write-Reopens written b m =
        (stored b, replay-stored b m, stored-IsJournal b m, inr refl, λ e. refl)
    write-Reopens (broken n) b m = elim (Bool-cases (leb n (length b))) [
      | inl short ↦ (s, replay-torn n b m (leb→le n (length b) short), log, inl refl, λ e. cc)
      | inr long ↦ (
        stored b,
        ap (λ t. replay c true (s.file ++ t)) (take-all n (b ++ newline ∷ []) (whole long))
            ∙ replay-stored b m,
        stored-IsJournal b m,
        inr refl,
        λ e. cc,
      )
    ]
      where
        whole : leb n (length b) ≡ false → length (b ++ newline ∷ []) ≤ n
        whole h = omega (arith, leb→lt n (length b) h, length-append b (newline ∷ []))

  -- Whatever becomes of the write of an append to a store whose file is the journal's own, if the texts of
  -- the new entry are valid UTF-8, the file that it leaves can be reopened, torn last line and all: the
  -- store read back is the one before the append or the one that the append makes when its write
  -- succeeds, it is again such a journal, and after a nil error it is the store in memory.
  pub append_crash :
      (io : Io) (j : Job) (kind actor text batch : String) (s : Store)
      → IsJournal c s
      → HasValidTexts valid (build_entry c io.now j kind actor text batch s)
      → let r = append c io j kind actor text batch s in
        let full = append c (record io { write = written }) j kind actor text batch s in
        (t : Store) × (replay c true r.1.file ≡ ok t)
        × IsJournal c t
        × ((t ≡ s) ⊎ (t ≡ full.1))
        × (r.0 ≡ ok tt → t ≡ r.1)
  unfolding write_line
  append_crash io j kind actor text batch s log utf8 =
      let encoded = c.marshal (entry io j kind actor text batch s log utf8) in
      elim (Option-cases encoded) [
        | inl m ↦
            rw (append-unencodable io j kind actor text batch s log utf8 m)
              (s, replay_self log, log, inl refl, λ e. refl)
        | inr (b, m) ↦
            rw
              (
                append-encodable io j kind actor text batch s log utf8 b m,
                append-encodable (record io { write = written }) j kind actor text batch s log utf8
                    b m,
              )
              (write-Reopens io j kind actor text batch s log utf8 io.write b m)
      ]
