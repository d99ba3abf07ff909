-- ===== src/Loader/Origin/Redacted.antt =====
-- Of a failure on a value of a wrong type, or on a wrong value of the right one: the value.
use dynamic_config.Prelude.{Bool, true, false, Option, List, [], ◌++◌, ◌≡◌, refl, sym, ap, ◌∙◌}
use dynamic_config.Prelude.Text.{Text, codes}
use dynamic_config.Figment.Provided.{
  Actual, FailureKind, Failure, Metadata, invalid_type, invalid_value,
}
use dynamic_config.Loader.Origin.{kind_of, message_of, translate, convert}

-- What was there, without its value.
abbrev pub erased : Actual → Actual
erased (Actual.bool x) = Actual.bool []
erased (Actual.unsigned x) = Actual.unsigned []
erased (Actual.signed x) = Actual.signed []
erased (Actual.float x) = Actual.float []
erased (Actual.char x) = Actual.char []
erased (Actual.str x) = Actual.str []
erased (Actual.bytes x) = Actual.bytes []
erased (Actual.other x) = Actual.other []
erased a = a

kind_of-erased : (a : Actual) → kind_of (erased a) ≡ kind_of a
unfolding kind_of
kind_of-erased (Actual.bool x) = refl
kind_of-erased (Actual.unsigned x) = refl
kind_of-erased (Actual.signed x) = refl
kind_of-erased (Actual.float x) = refl
kind_of-erased (Actual.char x) = refl
kind_of-erased (Actual.str x) = refl
kind_of-erased (Actual.bytes x) = refl
kind_of-erased (Actual.other x) = refl
kind_of-erased Actual.unit = refl
kind_of-erased Actual.option = refl
kind_of-erased Actual.newtype_struct = refl
kind_of-erased Actual.seq = refl
kind_of-erased Actual.map = refl
kind_of-erased Actual.enum = refl
kind_of-erased Actual.unit_variant = refl
kind_of-erased Actual.newtype_variant = refl
kind_of-erased Actual.tuple_variant = refl
kind_of-erased Actual.struct_variant = refl

-- A failure on a value of the wrong type, or on a wrong value of the right one.
abbrev pub mismatch : (wrong_type : Bool) → Actual → Text → FailureKind
mismatch true actual expected = invalid_type actual expected
mismatch false actual expected = invalid_value actual expected

message_of-mismatch :
    (wrong_type : Bool) (a b : Actual) (expected r s : Text)
    → erased a ≡ erased b
    → message_of (mismatch wrong_type a expected) r ≡ message_of (mismatch wrong_type b expected) s
unfolding message_of
message_of-mismatch true a b expected r s same =
    ap (λ k. codes "invalid type: found " ++ (k ++ (codes ", expected " ++ expected)))
      (sym (kind_of-erased a) ∙ (ap kind_of same ∙ kind_of-erased b))
message_of-mismatch false a b expected r s same =
    ap (λ k. codes "invalid value: found " ++ (k ++ (codes ", expected " ++ expected)))
      (sym (kind_of-erased a) ∙ (ap kind_of same ∙ kind_of-erased b))

-- A failure on a value, with how figment prints it.
abbrev pub on_value :
    (wrong_type : Bool)
    → Actual
    → (expected rendered : Text) → List Text
    → Option Metadata
    → Failure
on_value wrong_type actual expected rendered path metadata = record {
  kind = mismatch wrong_type actual expected;
  path = path;
  metadata = metadata;
  rendered = rendered;
}

module _ (has_variable : Text → Bool) (nest : Text) where
  -- Two failures of figment's kind `InvalidType`, or two of its kind `InvalidValue`, that differ only in
  -- the value that was found and in the text that figment prints become one error. What was found is a
  -- value of the same type in both, and they agree in what was expected, in the path and in the
  -- metadata. Nothing is said of failures of the other kinds.
  pub convert-mismatch :
      (wrong_type : Bool) (a b : Actual) (expected r s : Text) (path : List Text)
      (metadata : Option Metadata)
      → erased a ≡ erased b
      → convert has_variable nest (on_value wrong_type a expected r path metadata)
        ≡ convert has_variable nest (on_value wrong_type b expected s path metadata)
  unfolding convert translate
  convert-mismatch true a b expected r s path metadata same =
      rw (message_of-mismatch true a b expected r s same) refl
  convert-mismatch false a b expected r s path metadata same =
      rw (message_of-mismatch false a b expected r s same) refl
