-- ===== src/Durable.antt =====
-- internal/durable/file.go: a value is written to a temporary file, which then replaces the old one.
use vector_transfer.Base.{◌≡◌, ◌⊎◌, Bool, false, not, ◌&&◌, arith, if◌then◌else◌}
use vector_transfer.Base.Result.{message, Result, ok, err}

-- Which of the system calls of `Write` succeed.
pub record Calls : Type 0 where
  pub marshaled : Bool
  pub directory_made : Bool
  pub temp_created : Bool
  pub temp_written : Bool
  pub temp_synced : Bool
  pub temp_closed : Bool
  pub renamed : Bool
  pub directory_opened : Bool
  pub directory_synced : Bool

abbrev pub failed_call : Result (Unit {0})
failed_call = err (message "durable write failed")

-- What a file holds: the whole encoding of a value, or bytes that are torn or not yet on the disk.
pub data Content {ℓ} (A : Type ℓ) : Type ℓ where
  whole : A → Content A
  torn : Content A

-- The temporary file after the calls of its Write and Sync.
abbrev pub temporary {ℓ} : {A : Type ℓ} → Calls → A → Content A
temporary calls value = if calls.temp_written && calls.temp_synced then whole value else torn

-- `Write`: its error, and what the path holds afterwards, where it held `old` before. The rename puts the
-- temporary file there, whatever that holds.
unfoldable pub replaced {ℓ} : {A : Type ℓ} → Calls → A → Content A → Result (Unit {0}) × Content A
replaced calls value old =
    if not (calls.marshaled && calls.directory_made && calls.temp_created)
    then (failed_call, old)
    else if not (calls.temp_written && calls.temp_synced)
    then (failed_call, old)
    else if not calls.temp_closed
    then (failed_call, old)
    else if not calls.renamed
    then (failed_call, old)
    else if not calls.directory_opened
    then (failed_call, temporary calls value)
    else if calls.directory_synced
    then (ok tt, temporary calls value)
    else (failed_call, temporary calls value)

-- What the users of `Write` know of it: the path's value is replaced or kept, never a part of one.
unfoldable pub write {ℓ} : {A : Type ℓ} → Calls → A → A → Result (Unit {0}) × A
write calls value old =
    let made = calls.marshaled && calls.directory_made && calls.temp_created in
    let stored = calls.temp_written && calls.temp_synced && calls.temp_closed in
    if not (made && stored && calls.renamed)
    then (failed_call, old)
    else if calls.directory_opened && calls.directory_synced
    then (ok tt, value)
    else (failed_call, value)

-- The replacement is atomic: whatever call fails, a path that holds a whole value holds the old value or the
-- new one whole, never torn bytes, just as `write` says with the same error; a nil error means that it
-- holds the new one, and the old one is only lost after the rename.
pub write_atomic {ℓ} :
    {A : Type ℓ} (calls : Calls) (value old : A)
    → (replaced calls value (whole old)
        ≡ ((write calls value old).0, whole (write calls value old).1))
      × (((replaced calls value (whole old)).1 ≡ whole old)
          ⊎ ((replaced calls value (whole old)).1 ≡ whole value))
      × ((replaced calls value (whole old)).0 ≡ ok tt
          → (replaced calls value (whole old)).1 ≡ whole value)
      × (calls.renamed ≡ false → (replaced calls value (whole old)).1 ≡ whole old)
unfolding replaced write
write_atomic calls value old = ground arith
