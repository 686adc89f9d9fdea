-- ===== src/Connector.antt =====
-- connector/connector.go: the data that moves between databases, and the grants of a connection.
pub mod Validate
pub mod Access
pub mod Chunks
pub mod Personal
pub mod Config
use vector_transfer.Base.{ℕ, String, Bool, Option, List}

-- `Record`. A float32 of Values is its 32 bits, and a raw JSON value of Metadata is its text.
pub record Record : Type 0 where
  pub id : String
  pub values : List ℕ
  pub metadata : List (String × String)

-- `Page`.
pub record Page : Type 0 where
  pub records : List Record
  pub next : String
  pub done : Bool

-- A non-nil `Source` or `Sink` is known by a handle.
abbrev pub Handle : Type 0
Handle = ℕ

-- `Binding`.
pub record Binding : Type 0 where
  pub label : String
  pub personal : Bool
  pub read_subjects : List String
  pub write_subjects : List String
  pub name : String
  pub kind : String
  pub description : String
  pub fingerprint : String
  pub resource : String
  pub can_read : Bool
  pub can_write : Bool
  pub source : Option Handle
  pub sink : Option Handle
