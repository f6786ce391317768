-- ===== src/Serializer/Machine/Parts.antt =====
-- The reading of the parts that states, transitions and executable content share, behind their writing.
use ru_fsm.Common.{true, false, List, nat_eq, refl, arith, Option, none, some}
use ru_fsm.Common.Str.{Str}
use ru_fsm.Fsm.Model.{Id32, Parameter, CommonContent, DoneData}
use ru_fsm.Serializer.Steps.{Encoding, read_if, put_uint, put_list, get_list}
use ru_fsm.Serializer.Steps.Carries.{
  Carries, Carries-then, Carries-last, Carries-boolean, IsEncoding, Fits, All-map, Carries-uint,
  Carries-bits, Carries-str, Carries-option_str, Carries-same_list,
}
use ru_fsm.Serializer.Machine.Write.{
  vec_is_empty, write_common_content, write_optional_content, write_parameter, write_parameters,
  write_done_data, write_string_list,
}
use ru_fsm.Serializer.Machine.Read.{
  read_id, read_common_content, read_optional_content, read_parameter, read_parameters,
  read_done_data, read_string_list,
}
use ru_fsm.Serializer.Machine.Stored.{
  stored_parameters, stored_done_data, Each, IsU32, StorableCommonContent, StorableOption,
  StorableParameter, StorableParameters, StorableDoneData,
}

module _ (enc : Encoding) (laws : IsEncoding enc) where
  pub Carries-id : (x : Id32) → IsU32 x → Carries (put_uint x) (read_id enc) x
  Carries-id x h = Carries-bits enc laws 32 x h (omega arith)

  pub Carries-ids :
      (xs : List Id32)
      → Each IsU32 xs
      → Carries (put_list enc (λ x. put_uint x) xs) (get_list enc (read_id enc)) xs
  Carries-ids xs (h, s) = Carries-same_list enc laws _ _ xs h (All-map Carries-id xs s)

  pub Carries-strings :
      (xs : List Str) → Each Fits xs → Carries (write_string_list enc xs) (read_string_list enc) xs
  unfolding write_string_list
  Carries-strings xs (h, s) =
      Carries-same_list enc laws _ _ xs h (All-map (Carries-str enc laws) xs s)

  pub Carries-common_content :
      (c : CommonContent)
      → StorableCommonContent c
      → Carries (write_common_content enc c) (read_common_content enc) c
  unfolding write_common_content read_common_content
  Carries-common_content c (f, g) =
      Carries-then _ (Carries-option_str enc laws c.content f)
        (Carries-last _ (Carries-option_str enc laws c.content_expr g) refl)

  pub Carries-optional_content :
      (c : Option CommonContent)
      → StorableOption StorableCommonContent c
      → Carries (write_optional_content enc c) (read_optional_content enc) c
  unfolding write_optional_content read_optional_content read_if
  Carries-optional_content none s = Carries-last _ (Carries-boolean false) refl
  Carries-optional_content (some c) s =
      Carries-then _ (Carries-boolean true) (Carries-last _ (Carries-common_content c s) refl)

  pub Carries-parameter :
      (p : Parameter) → StorableParameter p → Carries (write_parameter enc p) (read_parameter enc) p
  unfolding write_parameter read_parameter
  Carries-parameter p (n, e, l) = Carries-then _ (Carries-str enc laws p.name n) (
      Carries-then _ (Carries-str enc laws p.expr e)
        (Carries-last _ (Carries-str enc laws p.location l) refl))

  pub Carries-parameters :
      (ps : Option (List Parameter))
      → StorableParameters ps
      → Carries (write_parameters enc ps) (read_parameters enc) (stored_parameters ps)
  unfolding write_parameters read_parameters stored_parameters put_list get_list vec_is_empty
  Carries-parameters none s =
      Carries-last _ (Carries-last _ (Carries-uint enc laws 0 (omega arith)) refl) refl
  Carries-parameters (some ps) (h, s) =
      Carries-last _ (Carries-same_list enc laws _ _ ps h (All-map Carries-parameter ps s)) refl

  pub Carries-done_data :
      (d : DoneData)
      → StorableDoneData d
      → Carries (write_done_data enc d) (read_done_data enc) (stored_done_data d)
  unfolding write_done_data read_done_data stored_done_data
  Carries-done_data d (c, p) =
      Carries-then _ (Carries-optional_content d.content c)
        (Carries-last _ (Carries-parameters d.params p) refl)
