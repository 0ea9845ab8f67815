-- ===== src/Runtime/Flags.antt =====
-- RowFlags of Runtime/Table.h: the seven flags of a row, and the byte that they are stored in.
use dr_lojekyll.Prelude.{Bool, true, false}

pub record Flags : Type 0 where
  pub in_i : Bool
  pub del : Bool
  pub add : Bool
  pub del_now : Bool
  pub add_now : Bool
  pub explicit : Bool
  pub touched : Bool

abbrev pub no_flags : Flags
no_flags = record {
  in_i = false;
  del = false;
  add = false;
  del_now = false;
  add_now = false;
  explicit = false;
  touched = false;
}

-- `f | kDel | kDelNow` and `f | kAdd | kAddNow`
unfoldable pub claimed_del : Flags → Flags
claimed_del f = record f { del = true; del_now = true }

unfoldable pub claimed_add : Flags → Flags
claimed_add f = record f { add = true; add_now = true }

-- What Commit leaves: `f & ~(kDel | kAdd | kDelNow | kAddNow | kTouched)`, with `kInI` as given.
unfoldable pub sealed_flags : Bool → Flags → Flags
sealed_flags now f = record {
  in_i = now;
  del = false;
  add = false;
  del_now = false;
  add_now = false;
  explicit = f.explicit;
  touched = false;
}
