-- ===== src/Control/Journal/Accept.antt =====
-- How the replay loop reads complete and torn lines.
use vector_transfer.Base.{
  ℕ, String, ◌≡◌, refl, sym, ap, ◌∙◌, Bool, true, false, Option, none, some, List, [], ◌∷◌, ◌++◌,
  append-nil, append_assoc, arith, eqb, any, all,
}
use vector_transfer.Control.Job.{Owner}
use vector_transfer.Base.Result.{ok, ◌>>=◌}
use vector_transfer.Control.Journal.{Entry, Codec, Store, newline, accept, replay_loop, empty_store}

abbrev pub has_newline : List ℕ → Bool
has_newline = any (λ b. eqb b newline)

abbrev owner_texts : Option Owner → List String
owner_texts none = []
owner_texts (some o) = o.id ∷ o.subject ∷ o.realm ∷ []

-- The texts of an entry that come from outside the journal: the state and the phase are constants.
abbrev pub entry_texts : Entry → List String
entry_texts e =
    e.event.job_id
    ∷ e.event.kind
    ∷ e.event.actor
    ∷ e.event.text
    ∷ e.event.batch_sha256
    ∷ e.event.previous_hash
    ∷ e.event.hash
    ∷ e.job.lease_id
    ∷ e.job.id
    ∷ e.job.spec.worker_id
    ∷ e.job.spec.name
    ∷ e.job.spec.source
    ∷ e.job.spec.sink
    ∷ e.job.created_by
    ∷ e.job.cursor
    ∷ e.job.error
    ∷ e.job.source_fingerprint
    ∷ e.job.sink_fingerprint
    ∷ e.job.sink_resource
    ∷ e.job.idempotency_key
    ∷ owner_texts e.job.owner

-- Every text of the entry is valid UTF-8, as `valid`, utf8.ValidString, tells. encoding/json replaces the
-- bytes of other texts.
abbrev pub HasValidTexts : (String → Bool) → Entry → Type 0
HasValidTexts valid e = all valid (entry_texts e) ≡ true

-- The documented behaviour of encoding/json that the journal relies on: a marshaled entry has no
-- line feed, and an entry whose texts are valid UTF-8 is read back from its line.
pub record IsCodec (valid : String → Bool) (c : Codec) : Type 0 where
  pub one_line : (e : Entry) (b : List ℕ) → c.marshal e ≡ some b → has_newline b ≡ false
  pub reads :
      (e : Entry) (b : List ℕ)
      → HasValidTexts valid e
      → c.marshal e ≡ some b
      → c.unmarshal (b ++ newline ∷ []) ≡ some e

module _ (c : Codec) (truncates : Bool) where
  -- Bytes without a line feed are added to the line.
  replay_loop-append :
      (part rest line : List ℕ) (s : Store)
      → has_newline part ≡ false
      → replay_loop c truncates (part ++ rest) line s
        ≡ replay_loop c truncates rest (line ++ part) s
  unfolding replay_loop
  replay_loop-append [] rest line s h = rw append-nil
  replay_loop-append (b ∷ part) rest line s h =
      let plain : eqb b newline ≡ false = ground arith in
      rw (plain, replay_loop)
        (replay_loop-append part rest (line ++ b ∷ []) s (ground arith)
          ∙ ap (λ t. replay_loop c truncates rest t s) (append_assoc line (b ∷ []) part))

  -- A complete line is accepted or refused, and the next one begins.
  pub replay_loop-line :
      (b rest : List ℕ) (s : Store)
      → has_newline b ≡ false
      → replay_loop c truncates ((b ++ newline ∷ []) ++ rest) [] s
        ≡ (accept c (b ++ newline ∷ []) s >>= replay_loop c truncates rest [])
  unfolding replay_loop
  replay_loop-line b rest s h =
      ap (λ t. replay_loop c truncates t [] s) (append_assoc b (newline ∷ []) rest)
      ∙ replay_loop-append b (newline ∷ rest) [] s h

  -- A torn last line is dropped, if the file can be truncated.
  pub replay_loop-torn :
      (part : List ℕ) (s : Store)
      → truncates ≡ true
      → has_newline part ≡ false
      → replay_loop c truncates part [] s ≡ ok s
  replay_loop-torn part s t h =
      ap (λ l. replay_loop c truncates l [] s) (sym (append-nil part))
      ∙ replay_loop-append part [] [] s h
      ∙ finish part
    where
      finish : (line : List ℕ) → replay_loop c truncates [] line s ≡ ok s
      finish [] = unfold replay_loop in refl
      finish (b ∷ line) = unfold replay_loop in rw t refl

-- A file that the journal wrote line by line, and the state that its lines give.
pub data IsJournal (c : Codec) : Store → Type 0 where
  start : {s : Store} → s ≡ empty_store → IsJournal c s
  grow :
      {s t : Store} (b : List ℕ)
      → IsJournal c s
      → has_newline b ≡ false
      → accept c (b ++ newline ∷ []) s ≡ ok t
      → IsJournal c t

-- An accepted line is added to the file, and leaves the poison as it was.
accept-file :
    (c : Codec) (line : List ℕ) (s t : Store)
    → accept c line s ≡ ok t
    → (t.file ≡ s.file ++ line) × (t.poison ≡ s.poison)
unfolding accept
accept-file c line s t h = ground arith

pub IsJournal-poison : {c : Codec} {s : Store} → IsJournal c s → s.poison ≡ none
IsJournal-poison (start e) = ap (λ (x : Store). x.poison) e
IsJournal-poison {c} (grow {s = s} {t = t} b j plain a) =
    (accept-file c (b ++ newline ∷ []) s t a).1 ∙ IsJournal-poison j

-- Replay goes through the journal's own file, and on with what stands behind it.
pub replay-IsJournal :
    {c : Codec} {s : Store} (truncates : Bool) (rest : List ℕ)
    → IsJournal c s
    → replay_loop c truncates (s.file ++ rest) [] empty_store ≡ replay_loop c truncates rest [] s
replay-IsJournal {c} truncates rest (start {s = s} e) = rw e refl
replay-IsJournal {c} truncates rest (grow {s = s} {t = t} b j plain a) =
    let line : List ℕ = b ++ newline ∷ [] in
    ap (λ f. replay_loop c truncates (f ++ rest) [] empty_store) (accept-file c line s t a).0
    ∙ ap (λ f. replay_loop c truncates f [] empty_store) (append_assoc s.file line rest)
    ∙ replay-IsJournal truncates (line ++ rest) j
    ∙ replay_loop-line c truncates b rest s plain
    ∙ ap (λ r. r >>= replay_loop c truncates rest []) a
