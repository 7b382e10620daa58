-- ===== src/Frames/Screen.antt =====
-- outputs/screen_frame_ring.h: which of three slots the writer fills and the reader draws. An index
-- of -1 is `none`.
pub mod Protocol
use weblinked.Base.{
  ℕ, zero, suc, ◌+◌, Bool, true, false, ◌||◌, Option, none, some, ◌==◌, if◌then◌else◌,
}

pub record Ring : Type 0 where
  pub is_open : Bool
  pub newest : Option ℕ
  pub in_use : Option ℕ
  pub writing : Option ℕ
  pub consumed : Bool
  pub presented : ℕ
  pub dropped : ℕ

abbrev pub fresh : Ring
fresh = record {
  is_open = false;
  newest = none;
  in_use = none;
  writing = none;
  consumed = true;
  presented = 0;
  dropped = 0;
}

abbrev pub slot_count : ℕ
slot_count = 3

-- `i == slot`
abbrev pub is_slot : ℕ → Option ℕ → Bool
is_slot i none = false
is_slot i (some j) = i == j

abbrev pub is_busy : Ring → ℕ → Bool
is_busy r i = is_slot i r.newest || (is_slot i r.in_use || is_slot i r.writing)

-- The loop of `claim` from index `i` on, with `left` slots to look at.
unfoldable pub first_idle : Ring → ℕ → ℕ → Option ℕ
first_idle r zero i = none
first_idle r (suc left) i =
    let rest = first_idle r left (i + 1) in if is_busy r i then rest else some i

unfoldable pub claim : Ring → Ring × Option ℕ
claim r =
    if r.is_open
    then elim (first_idle r slot_count 0) [
      | none ↦ (r, none)
      | some i ↦ (record r { writing = some i }, some i)
    ]
    else (r, none)

unfoldable pub publish : Ring → ℕ → Ring
publish r slot = record r {
  dropped = if r.consumed then r.dropped else r.dropped + 1;
  newest = some slot;
  writing = none;
  consumed = false;
}

unfoldable pub acquire : Ring → Ring × Option ℕ
acquire r =
    if r.is_open
    then elim r.newest [
      | none ↦ (r, none)
      | some i ↦ (record r { in_use = some i; consumed = true }, some i)
    ]
    else (r, none)

unfoldable pub release : Ring → Bool → Ring
release r presented = record r {
  in_use = none;
  presented = if presented then r.presented + 1 else r.presented;
}

unfoldable pub shutdown : Ring → Ring
shutdown r = record r {
  is_open = false;
  newest = none;
  in_use = none;
  writing = none;
  consumed = true;
}

unfoldable pub reset : Ring → Ring
reset r = record {
  is_open = true;
  newest = none;
  in_use = none;
  writing = none;
  consumed = true;
  presented = 0;
  dropped = 0;
}
