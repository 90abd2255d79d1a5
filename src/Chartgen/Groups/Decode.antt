-- ===== src/Chartgen/Groups/Decode.antt =====
-- What `decodeResources` returns, as a relation between the chunks read and the objects.
use opendatahub_ai_gateway_o.Base.{
  true, false, List, [], ◌∷◌, ◌++◌, append-nil, append_assoc, ◌↔◌, inl, inr, Option, none, some,
  ◌≡◌, refl, sym, ◌∙◌, Bool-cases, Result, ok, err, ◌>>=◌, map_err,
}
use opendatahub_ai_gateway_o.Chartgen.Groups.{
  Chunk, document, broken, decoded, decode_loop, decode_resources,
}
use opendatahub_ai_gateway_o.Chartgen.Libraries.{Libraries}
use opendatahub_ai_gateway_o.Chartgen.Object.{Fields}
use opendatahub_ai_gateway_o.Text.{Text, codes, is_empty, trim_space}

-- Every chunk is a document; a blank one and one that is `null` give no object, any other gives one.
pub data Decodes (lib : Libraries) : List Chunk → List Fields → Type 0 where
  no_more : Decodes lib [] []
  blank :
      {s : Text} {chunks : List Chunk} {objs : List Fields}
      → is_empty (trim_space s) ≡ true
      → Decodes lib chunks objs
      → Decodes lib (document s ∷ chunks) objs
  null_map :
      {s : Text} {chunks : List Chunk} {objs : List Fields}
      → is_empty (trim_space s) ≡ false
      → lib.unmarshal (trim_space s) ≡ ok none
      → Decodes lib chunks objs
      → Decodes lib (document s ∷ chunks) objs
  one_object :
      {s : Text} {chunks : List Chunk} {obj : Fields} {objs : List Fields}
      → is_empty (trim_space s) ≡ false
      → lib.unmarshal (trim_space s) ≡ ok (some obj)
      → Decodes lib chunks objs
      → Decodes lib (document s ∷ chunks) (obj ∷ objs)

module _ (lib : Libraries) where
  loop-Decodes :
      {chunks : List Chunk} {objs : List Fields} (acc : List Fields)
      → Decodes lib chunks objs
      → decode_loop lib chunks acc ≡ ok (acc ++ objs)
  unfolding decode_loop
  loop-Decodes acc no_more = rw append-nil
  loop-Decodes acc (blank e d) = rw e (loop-Decodes acc d)
  loop-Decodes acc (null_map e u d) = rw (e, u) (loop-Decodes acc d)
  loop-Decodes acc (one_object {obj} {objs} e u d) =
      rw (e, u) (loop-Decodes (acc ++ obj ∷ []) d ∙ rw append_assoc)

  Ends : List Chunk → List Fields → Result (List Fields) → Type 0
  Ends chunks acc (ok out) = (objs : List Fields) × Decodes lib chunks objs × (out ≡ acc ++ objs)
  Ends chunks acc (err e) = Unit

  Ends-before :
      (r : Result (List Fields)) (chunks before : List Chunk) (acc acc' : List Fields)
      → ((objs : List Fields)
          → Decodes lib chunks objs
          → (objs' : List Fields) × Decodes lib before objs' × (acc ++ objs ≡ acc' ++ objs'))
      → Ends chunks acc r
      → Ends before acc' r
  unfolding Ends
  Ends-before (err e) chunks before acc acc' k h = tt
  Ends-before (ok out) chunks before acc acc' k (objs, d, e) =
      let (objs', d', e') = k objs d in (objs', d', e ∙ e')

  loop-Ends :
      (chunks : List Chunk) (acc : List Fields) → Ends chunks acc (decode_loop lib chunks acc)
  unfolding decode_loop
  loop-Ends [] acc = unfold Ends in ([], no_more, sym (append-nil acc))
  loop-Ends (broken e ∷ chunks) acc = unfold Ends in tt
  loop-Ends (document s ∷ chunks) acc = elim (Bool-cases (is_empty (trim_space s))) [
    | inl e ↦
        rw e (
          Ends-before _ chunks _ acc acc (λ objs d. (objs, blank e d, refl)) (loop-Ends chunks acc))
    | inr e ↦ rw e (
        go (lib.unmarshal (trim_space s)) refl e (loop-Ends chunks acc)
          (λ obj. loop-Ends chunks (acc ++ obj ∷ [])))
  ]
    where
      go :
          (u : Result (Option Fields))
          → lib.unmarshal (trim_space s) ≡ u
          → is_empty (trim_space s) ≡ false
          → Ends chunks acc (decode_loop lib chunks acc)
          → ((obj : Fields)
              → Ends chunks (acc ++ obj ∷ []) (decode_loop lib chunks (acc ++ obj ∷ [])))
          → Ends (document s ∷ chunks) acc (
              map_err (λ e. codes "unmarshaling resource: " ++ e) u >>= λ obj.
              decode_loop lib chunks (decoded lib obj acc))
      go (err f) p e h k = unfold Ends in tt
      go (ok none) p e h k =
          Ends-before (decode_loop lib chunks acc) chunks _ acc acc
            (λ objs d. (objs, null_map e p d, refl)) h
      go (ok (some obj)) p e h k =
          Ends-before (decode_loop lib chunks (acc ++ obj ∷ [])) chunks _ (acc ++ obj ∷ []) acc
            (λ objs d. (obj ∷ objs, one_object e p d, append_assoc acc (obj ∷ []) objs)) (k obj)

  -- `decodeResources` succeeds exactly if every chunk is read and parsed, and then returns an object for
  -- each document that is neither blank nor `null`, in their order.
  pub decode_resources_iff :
      (chunks : List Chunk) (objs : List Fields)
      → (decode_resources lib chunks ≡ ok objs) ↔ Decodes lib chunks objs
  unfolding decode_resources
  decode_resources_iff chunks objs =
      ((λ e. of_ends (rw e at (loop-Ends chunks []))), λ d. loop-Decodes [] d)
    where
      of_ends : Ends chunks [] (ok objs) → Decodes lib chunks objs
      of_ends h = unfold Ends in rw h.2 h.1
