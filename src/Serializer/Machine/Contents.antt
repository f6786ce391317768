-- ===== src/Serializer/Machine/Contents.antt =====
-- `read_invoke` and `read_executable_content` behind `write_invoke` and `write_executable_content`.
use ru_fsm.Common.{ℕ, ◌<◌, List, nat_eq, refl, arith, map}
use ru_fsm.Datamodel.Data.{Data}
use ru_fsm.Fsm.Content.{
  SendParameters, conditional, expression, script, log, for_each, send, raise, cancel, assign,
}
use ru_fsm.Fsm.Model.{Id32, ExecutableContent, Invoke}
use ru_fsm.Serializer.Steps.{Encoding, Write, ◌>>◌, put_uint}
use ru_fsm.Serializer.Steps.Carries.{
  Carries, Carries-last, Carries-when, Carries-boolean, IsEncoding, ◌$◌, Carries-then, All-map,
  Carries-uint, Carries-bits, Carries-str, Carries-list,
}
use ru_fsm.Serializer.Values.{write_data}
use ru_fsm.Serializer.Values.RoundTrip.{Carries-data}
use ru_fsm.Serializer.Machine.Write.{
  write_invoke, write_executable_content, write_executable_content_send, write_content_block,
}
use ru_fsm.Serializer.Machine.Read.{
  read_value, read_invoke, read_executable_content, read_content_of_type, read_content_block,
  read_executable_content_if, read_executable_content_expression, read_executable_content_script,
  read_executable_content_log, read_executable_content_for_each, read_executable_content_send,
  read_executable_content_raise, read_executable_content_cancel, read_executable_content_assign,
}
use ru_fsm.Serializer.Machine.Stored.{
  stored_invoke, stored_content, Each, StorableValue, StorableInvoke, StorableSend, StorableContent,
  IsU32,
}
use ru_fsm.Serializer.Machine.Parts.{
  Carries-id, Carries-ids, Carries-strings, Carries-optional_content, Carries-parameters,
}

module _ (enc : Encoding) (laws : IsEncoding enc) (d : ℕ) where
  pub Carries-value :
      (v : Data) → StorableValue d v → Carries (write_data enc v) (read_value enc d) v
  Carries-value v (s, h) = Carries-data enc laws v d s h

  pub Carries-invoke :
      (i : Invoke)
      → StorableInvoke d i
      → Carries (write_invoke enc i) (read_invoke enc d) (stored_invoke i)
  unfolding write_invoke read_invoke stored_invoke
  Carries-invoke i s =
      let (doc, fin) = s.ids in
      let (id, parent, place) = s.texts in
      let (src, src_expr, name, expr) = s.values in
      Carries-then _ (Carries-str enc laws i.invoke_id id)
      $ Carries-then _ (
          Carries-when _ _ refl (λ e. rw e (Carries-str enc laws i.parent_state_name parent))
            (λ e. rw e))
      $ Carries-then _ (Carries-id enc laws i.doc_id doc)
      $ Carries-then _ (Carries-value i.src_expr src_expr)
      $ Carries-then _ (Carries-value i.src src)
      $ Carries-then _ (Carries-value i.type_expr expr)
      $ Carries-then _ (Carries-value i.type_name name)
      $ Carries-then _ (Carries-str enc laws i.external_id_location place)
      $ Carries-then _ (Carries-boolean i.autoforward)
      $ Carries-then _ (Carries-id enc laws i.finalize fin)
      $ Carries-then _ (Carries-optional_content enc laws i.content s.content)
      $ Carries-then _ (Carries-parameters enc laws i.params s.parameters)
      $ Carries-last _ (Carries-strings enc laws i.name_list s.names) refl

  Carries-send :
      (p : SendParameters)
      → StorableSend d p
      → Carries
          (write_executable_content_send enc p)
          (read_executable_content_send enc d)
          (stored_content (send p))
  unfolding write_executable_content_send read_executable_content_send stored_content
  Carries-send p s =
      let (name, location) = s.texts in
      let (target, target_expr) = s.targets in
      let (event, event_expr) = s.events in
      let (type, type_expr) = s.types in
      let (short, delay) = s.delay in
      Carries-then _ (Carries-str enc laws p.name name)
      $ Carries-then _ (Carries-value p.target target)
      $ Carries-then _ (Carries-value p.target_expr target_expr)
      $ Carries-then _ (Carries-optional_content enc laws p.content s.content)
      $ Carries-then _ (Carries-strings enc laws p.name_list s.names)
      $ Carries-then _ (Carries-str enc laws p.name_location location)
      $ Carries-then _ (Carries-parameters enc laws p.params s.parameters)
      $ Carries-then _ (Carries-value p.event event)
      $ Carries-then _ (Carries-value p.event_expr event_expr)
      $ Carries-then _ (Carries-value p.type_value type)
      $ Carries-then _ (Carries-value p.type_expr type_expr)
      $ Carries-then _ (Carries-uint enc laws p.delay_ms short)
      $ Carries-last _ (Carries-value p.delay_expr delay) refl

  -- The type, and what follows it.
  Carries-type :
      (t : ℕ) {m : Write} {c : ExecutableContent}
      → t < 9
      → Carries m (read_content_of_type enc d t) c
      → Carries (put_uint t >> m) (read_executable_content enc d) c
  unfolding read_executable_content
  Carries-type t h c = Carries-then _ (Carries-bits enc laws 8 t (omega arith) (omega arith)) c

  pub Carries-content :
      (c : ExecutableContent)
      → StorableContent d c
      → Carries (write_executable_content enc c) (read_executable_content enc d) (stored_content c)
  unfolding write_executable_content read_content_of_type stored_content read_executable_content_if
      read_executable_content_expression read_executable_content_script read_executable_content_log
      read_executable_content_for_each read_executable_content_raise read_executable_content_cancel
      read_executable_content_assign
  Carries-content (conditional c t e) (s, ids, ide) =
      Carries-type 0 (omega arith)
      $ Carries-then _ (Carries-value c s)
      $ Carries-then _ (Carries-id enc laws t ids)
      $ Carries-last _ (Carries-id enc laws e ide) refl
  Carries-content (expression c) s =
      Carries-type 1 (omega arith) $ Carries-last _ (Carries-value c s) refl
  Carries-content (script ids) s =
      Carries-type 2 (omega arith) $ Carries-last _ (Carries-ids enc laws ids s) refl
  Carries-content (log l e) (f, s) =
      Carries-type 3 (omega arith)
      $ Carries-then _ (Carries-str enc laws l f)
      $ Carries-last _ (Carries-value e s) refl
  Carries-content (for_each a it i c) (s, f, g, id) =
      Carries-type 4 (omega arith)
      $ Carries-then _ (Carries-id enc laws c id)
      $ Carries-then _ (Carries-str enc laws i g)
      $ Carries-then _ (Carries-value a s)
      $ Carries-last _ (Carries-str enc laws it f) refl
  Carries-content (send p) s = Carries-type 5 (omega arith) $ Carries-send p s
  Carries-content (raise e) f =
      Carries-type 6 (omega arith) $ Carries-last _ (Carries-str enc laws e f) refl
  Carries-content (cancel i e) (f, s) =
      Carries-type 7 (omega arith)
      $ Carries-then _ (Carries-str enc laws i f)
      $ Carries-last _ (Carries-value e s) refl
  Carries-content (assign l e) (s, t) =
      Carries-type 8 (omega arith)
      $ Carries-then _ (Carries-value e t)
      $ Carries-last _ (Carries-value l s) refl

  pub Carries-block :
      (block : Id32 × List ExecutableContent)
      → IsU32 block.0 × Each (StorableContent d) block.1
      → Carries
          (write_content_block enc block)
          (read_content_block enc d)
          (block.0, map stored_content block.1)
  unfolding write_content_block read_content_block
  Carries-block (i, content) (id, (h, s)) =
      Carries-then _ (Carries-id enc laws i id)
      $ Carries-last _
          (Carries-list enc laws _ _ stored_content content h (All-map Carries-content content s))
          refl
