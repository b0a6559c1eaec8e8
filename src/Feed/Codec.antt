-- ===== src/Feed/Codec.antt =====
-- crates/feed/src/codec.rs: the records of epoch and head files, and the checks on their blocks.
pub mod Parse
pub mod Valid
use strk20_indexer.Prelude.{
  ℕ, zero, suc, ◌+◌, Bool, true, false, not, ◌&&◌, Option, none, some, List, [], ◌∷◌, String,
  length, ltb, leb, ◌==◌, if◌then◌else◌,
}
use strk20_indexer.Feed.Error.{FeedError, malformed, Result, ok, err, ◌>>=◌, ◌>>◌, ensure}
use strk20_indexer.Feed.Felt.{Felt}
use strk20_indexer.Feed.Host.{Bytes}

abbrev pub format_version : ℕ
format_version = 1

abbrev pub kind_epoch : String
kind_epoch = "strk20-epoch"

abbrev pub kind_head : String
kind_head = "strk20-head"

pub record EventLine : Type 0 where
  pub tx_index : ℕ
  pub event_index : ℕ
  pub tx_hash : Felt
  pub keys : List Felt
  pub payload : List Felt

pub data Finality : Type 0 where
  l2 l1 : Finality

pub record BlockLine : Type 0 where
  pub number : ℕ
  pub hash : Felt
  pub parent : Felt
  pub timestamp : ℕ
  pub diffs : List (Felt × Felt)
  pub events : List EventLine
  pub replaced_class : Option Felt
  pub finality : Option Finality

pub record EpochHeader : Type 0 where
  pub chain_id : String
  pub pool : Felt
  pub epoch : ℕ
  pub from : ℕ
  pub to : ℕ
  pub prev : Option Bytes

pub record HeadHeader : Type 0 where
  pub tail_from : ℕ
  pub head : ℕ
  pub head_hash : Felt
  pub l1_accepted : ℕ

pub record Footer : Type 0 where
  pub blocks : ℕ
  pub diffs : ℕ
  pub events : ℕ
  pub class : Felt

pub record Epoch : Type 0 where
  pub header : EpochHeader
  pub blocks : List BlockLine
  pub footer : Footer

pub record Head : Type 0 where
  pub header : HeadHeader
  pub blocks : List BlockLine
  pub footer : Footer

-- `xs.windows(2).all(test)`
abbrev pub windows_all {ℓ} : {A : Type ℓ} → (A → A → Bool) → List A → Bool
windows_all test [] = true
windows_all test (x ∷ []) = true
windows_all test (x ∷ y ∷ r) = test x y && windows_all test (y ∷ r)

abbrev pub all {ℓ} : {A : Type ℓ} → (A → Bool) → List A → Bool
all test [] = true
all test (x ∷ r) = test x && all test r

-- slots compare as 32-byte arrays, which is the order of the integers
abbrev pub slot_lt : Felt × Felt → Felt × Felt → Bool
slot_lt a b = ltb a.0 b.0

abbrev pub event_lt : EventLine → EventLine → Bool
event_lt a b = ltb a.event_index b.event_index

-- what the encoders assert of their blocks
unfoldable pub assert_invariants : List BlockLine → Bool
assert_invariants blocks =
    windows_all (λ a b. ltb a.number b.number) blocks
    && all (λ b. windows_all slot_lt b.diffs && windows_all event_lt b.events) blocks

-- the checks of `parse_lines` on neighbouring blocks
unfoldable pub check_order : List BlockLine → Result (Unit {0})
check_order [] = ok tt
check_order (a ∷ []) = ok tt
check_order (a ∷ b ∷ r) = do
  ensure (ltb a.number b.number) (malformed "blocks not ascending")
  ensure (not ((b.number == a.number + 1) && not (b.parent == a.hash)))
      (malformed "parent linkage broken")
  check_order (b ∷ r)

-- and on the rows of each block
unfoldable pub check_rows : List BlockLine → Result (Unit {0})
check_rows [] = ok tt
check_rows (b ∷ r) = do
  ensure (windows_all slot_lt b.diffs) (malformed "diffs not sorted in block")
  ensure (windows_all event_lt b.events) (malformed "events not sorted in block")
  check_rows r

unfoldable pub count_diffs : List BlockLine → ℕ
count_diffs [] = 0
count_diffs (b ∷ r) = length b.diffs + count_diffs r

unfoldable pub count_events : List BlockLine → ℕ
count_events [] = 0
count_events (b ∷ r) = length b.events + count_events r

-- the structural checks at the end of `parse_lines`
unfoldable pub check_structure : List BlockLine → Footer → Result (Unit {0})
check_structure blocks footer = do
  ensure (footer.blocks == length blocks) (malformed "footer.blocks != actual")
  ensure (footer.diffs == count_diffs blocks && footer.events == count_events blocks)
      (malformed "footer counts != actual")
  check_order blocks
  check_rows blocks
