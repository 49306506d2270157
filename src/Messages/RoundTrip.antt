-- ===== src/Messages/RoundTrip.antt =====
-- What is sent is what is received.
use wrkr.Prelude.{ℕ, zero, suc, ◌<◌, ◌≡◌, refl, ap, ◌∙◌, length, arith, IsU64}
use wrkr.Prelude.Results.{ok}
use wrkr.Wire.{Bytes}
use wrkr.Value.{Value, ObjectMap}
use wrkr.Messages.Kinds.{GrpcMessageMeta, GrpcMethod, get_by_number}
use wrkr.Messages.Decimal.{Floats}
use wrkr.Messages.Decode.{
  decode_fields, decode_message, decode_message_for_meta, decode_message_for_method,
}
use wrkr.Messages.Encode.{encode_nested, encode_message, encode_value_for_method, depth}
use wrkr.Messages.Objects.{Fresh-end}
use wrkr.Messages.Fitting.{IsObjectOf}
use wrkr.Messages.MessageTrip.{object_trip}

module _ (lib : Floats) where
  message_trip :
      (fuel levels : ℕ) (meta : GrpcMessageMeta) (m : ObjectMap) (b : Bytes)
      → IsObjectOf lib meta m
      → encode_nested lib levels meta (Value.object m) ≡ ok b
      → IsU64 (length b)
      → length b < fuel
      → decode_message lib fuel meta b ≡ ok (Value.object m)
  unfolding encode_nested decode_message
  message_trip fuel zero meta m b fit e fits enough = cc
  message_trip zero (suc levels) meta m b fit e fits enough = absurd (omega (arith, enough))
  message_trip (suc fuel) (suc levels) meta m b fit e fits enough =
      object_trip lib (decode_message lib fuel) (λ n. get_by_number n meta)
        (encode_nested lib levels) (length b) fits
        (λ inner fields body inner_fit inner_ok shorter.
          message_trip fuel levels inner fields body inner_fit inner_ok
            (omega (arith, shorter, fits)) (omega (arith, shorter, enough)))
        meta m ObjectMap.end b (length b) (λ n. refl) fit (Fresh-end m) e (omega arith)
        (omega arith)

  table_trip :
      (levels : ℕ) (meta : GrpcMessageMeta) (m : ObjectMap) (b : Bytes)
      → IsObjectOf lib meta m
      → encode_nested lib levels meta (Value.object m) ≡ ok b
      → IsU64 (length b)
      → decode_fields lib
          (decode_message_for_meta lib)
          (λ n. get_by_number n meta)
          (length b)
          ObjectMap.end
          b
        ≡ ok (Value.object m)
  unfolding encode_nested decode_message_for_meta
  table_trip zero meta m b fit e fits = cc
  table_trip (suc levels) meta m b fit e fits =
      object_trip lib (decode_message_for_meta lib) (λ n. get_by_number n meta)
        (encode_nested lib levels) (length b) fits
        (λ inner fields body inner_fit inner_ok shorter.
          message_trip (suc (length body)) levels inner fields body inner_fit inner_ok
            (omega (arith, shorter, fits)) (omega arith))
        meta m ObjectMap.end b (length b) (λ n. refl) fit (Fresh-end m) e (omega arith)
        (omega arith)

  -- An object whose fields are fields of the message type, each once, with values of their kinds in
  -- their ranges and with no empty list, comes back as it was, nested messages included: when
  -- `encode_value_for_method` encodes it for a method, `decode_message_for_method` gives the same
  -- object for every method whose output type is the input type of the first. The encoded message
  -- is at most as long as a u64 can say.
  pub decode_message_for_method-encode_value_for_method :
      (sender receiver : GrpcMethod) (m : ObjectMap) (b : Bytes)
      → receiver.output_fields ≡ sender.input_fields
      → IsObjectOf lib sender.input_fields m
      → encode_value_for_method lib sender (Value.object m) ≡ ok b
      → IsU64 (length b)
      → decode_message_for_method lib receiver b ≡ ok (Value.object m)
  unfolding encode_value_for_method decode_message_for_method encode_message
  decode_message_for_method-encode_value_for_method sender receiver m b same fit e fits =
      ap
        (λ (meta : GrpcMessageMeta).
          decode_fields lib (decode_message_for_meta lib) (λ n. get_by_number n meta) (length b)
            ObjectMap.end b)
        same
      ∙ table_trip (depth sender.input_fields) sender.input_fields m b fit e fits
