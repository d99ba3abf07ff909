-- ===== src/Figment.antt =====
-- The values of the `figment` crate as value.rs matches on them: `figment::value::Value` is a tree
-- whose leaves carry these data, and `Dict` is a table. The provenance tags are dropped.
pub mod Provided
use dynamic_config.Prelude.{ℕ, Bool}
use dynamic_config.Prelude.Int.{ℤ}
use dynamic_config.Prelude.Text.{Text}
use dynamic_config.Tree.{Tree, Table}

-- `figment::value::Num`: an unsigned width holds a natural number, a float its bits.
pub data Num : Type 0 where
  u8 u16 u32 u64 usize u128 : ℕ → Num
  i8 i16 i32 i64 isize i128 : ℤ → Num
  f32 f64 : ℕ → Num

-- `figment::value::Empty`
pub data Empty : Type 0 where
  absent unit : Empty

pub data Datum : Type 0 where
  string : Text → Datum
  char : ℕ → Datum
  bool : Bool → Datum
  num : Num → Datum
  empty : Empty → Datum

abbrev pub FigmentValue : Type 0
FigmentValue = Tree Datum

abbrev pub Dict : Type 0
Dict = Table Datum
