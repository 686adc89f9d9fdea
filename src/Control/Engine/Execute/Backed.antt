-- ===== src/Control/Engine/Execute/Backed.antt =====
-- What a job's cursor and counts stand for: a scan whose records are acknowledged.
use vector_transfer.Base.{
  ℕ, String, ◌≡◌, refl, ap, ◌∙◌, subst, ◌⊎◌, inl, inr, Bool, true, false, List, [], ◌∷◌, ◌++◌,
  arith, length, In, length-append,
}
use vector_transfer.Connector.{Record, Page}
use vector_transfer.Control.Job.{Job, State, succeeded}
use vector_transfer.Control.Engine.Execute.{checkpoint_change, checkpoint_state}
use vector_transfer.Control.Engine.Execute.Frozen.{IsFrozen}

-- The records that a scan from the beginning has read when it stands at a cursor, and whether the
-- page before the cursor was the last one.
pub data Scan (page : String → Page) : String → Bool → List Record → Type 0 where
  scan_start : Scan page "" false []
  scan_page :
      {cursor next : String} {done : Bool} {rs all_rs : List Record}
      → Scan page cursor false rs
      → next ≡ (page cursor).next
      → done ≡ (page cursor).done
      → all_rs ≡ rs ++ (page cursor).records
      → Scan page next done all_rs

-- The job stands where a scan stands whose records are all acknowledged and counted, and it is
-- `succeeded` only at the end of the scan.
pub record IsBacked (page : String → Page) (delivered : List Record) (j : Job) : Type 0 where
  pub scanned : List Record
  pub scan : Scan page j.cursor j.source_exhausted scanned
  pub acknowledged : (x : Record) → In x scanned → In x delivered
  pub counted : j.records ≡ length scanned
  pub success : j.state ≡ succeeded → j.source_exhausted ≡ true

pub IsFrozen-refl : (k : Job) → (k.state ≡ succeeded → k.source_exhausted ≡ true) → IsFrozen k k
IsFrozen-refl k h = record {
  same_id = refl;
  same_spec = refl;
  same_cursor = refl;
  same_end = refl;
  same_records = refl;
  success = h;
}

-- A frozen job is backed by as much, and by more.
pub IsBacked-frozen :
    (page : String → Page) (d d' : List Record) (k j : Job)
    → IsBacked page d k
    → ((x : Record) → In x d → In x d')
    → IsFrozen k j
    → IsBacked page d' j
IsBacked-frozen page d d' k j b grown f = record {
  scanned = b.scanned;
  scan = rw (f.same_cursor, f.same_end) b.scan;
  acknowledged = λ x i. grown x (b.acknowledged x i);
  counted = f.same_records ∙ b.counted;
  success = λ e. f.same_end ∙ f.success e;
}

pub In-append : (x : Record) (xs ys : List Record) → In x (xs ++ ys) → In x xs ⊎ In x ys
In-append x [] ys i = inr i
In-append x (y ∷ xs) ys (inl e) = inl (inl e)
In-append x (y ∷ xs) ys (inr i) = elim (In-append x xs ys i) [ inl a ↦ inl (inr a) | inr b ↦ inr b ]

pub In-append_left : (x : Record) (xs ys : List Record) → In x xs → In x (xs ++ ys)
In-append_left x [] ys i = absurd (i tt)
In-append_left x (y ∷ xs) ys (inl e) = inl e
In-append_left x (y ∷ xs) ys (inr i) = inr (In-append_left x xs ys i)

pub In-append_right : (x : Record) (xs ys : List Record) → In x ys → In x (xs ++ ys)
In-append_right x [] ys i = i
In-append_right x (y ∷ xs) ys i = inr (In-append_right x xs ys i)

-- The checkpoint of an acknowledged page is backed.
pub IsBacked-checkpoint :
    (page : String → Page) (p : Page) (d : List Record) (now at : ℕ) (k j : Job)
    → p ≡ page k.cursor
    → IsBacked page d k
    → k.source_exhausted ≡ false
    → ((x : Record) → In x p.records → In x d)
    → IsFrozen k j
    → IsBacked page d (record (checkpoint_change now p j) { updated_at = at })
unfolding checkpoint_change
IsBacked-checkpoint page p d now at k j same b open_end written f = record {
  scanned = b.scanned ++ p.records;
  scan =
      scan_page (subst (λ e. Scan page k.cursor e b.scanned) open_end b.scan)
        (ap (λ (q : Page). q.next) same) (ap (λ (q : Page). q.done) same)
        (ap (λ (q : Page). b.scanned ++ q.records) same);
  acknowledged = λ x i. elim (In-append x b.scanned p.records i) [
    | inl old ↦ b.acknowledged x old
    | inr new ↦ written x new
  ];
  counted = omega (arith, length-append b.scanned p.records, f.same_records, b.counted);
  success = λ e. by_done p.done j.state refl e;
}
  where
    by_done :
        (done : Bool) (st : State)
        → st ≡ j.state
        → checkpoint_state done st ≡ succeeded
        → done ≡ true
    by_done done st same e = ground (arith, f.success)
