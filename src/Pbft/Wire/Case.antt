-- ===== src/Pbft/Wire/Case.antt =====
-- One case of a marshaler, against the same case of the sizer and of the unmarshaler.
use spree.Base.{
  ℕ, ◌/◌, ◌%◌, ◌≡◌, refl, sym, ap, ◌∙◌, true, Option, none, some, ◌++◌, Bytes, length, arith,
  length-append, some_inj,
}
use mathlib.Core.List.{append_assoc}
use spree.Pbft.Wire.{
  Proto, add_key, IsProto, Codec, IsCodec, Unmarshaled, key, marshal_case, size_case,
  unmarshal_case, store_decoded,
}

-- In a buffer that starts with `bytes` there is a key, and at its tag and its wire type the
-- unmarshaler reads the payload, has no error, and leaves what comes behind `bytes`.
abbrev pub ReadsBack :
    {P : Type 0}
    → Proto
    → (ℕ → ℕ → Bytes → Option P → Unmarshaled P)
    → P
    → Option P
    → Bytes
    → Bytes
    → Type 0
ReadsBack p unmarshal payload old bytes rest =
    (n : ℕ) × (b : Bytes) × (p.decode_varint (bytes ++ rest) ≡ some (n, b))
    × (unmarshal (n / 8) (n % 8) b old
        ≡ record { handled = true; error = none; payload = some payload; rest = rest })

add_key-frame :
    (p : Proto) (tag : ℕ) (o : Option Bytes) (bytes : Bytes)
    → add_key p tag o ≡ some bytes
    → (frame : Bytes) × (o ≡ some frame) × (bytes ≡ p.encode_varint (key tag) ++ frame)
add_key-frame p tag none bytes h = cc
add_key-frame p tag (some frame) bytes h = (frame, refl, sym (some_inj h))

module _ (p : Proto) {A : Type 0} (c : Codec A) where
  pub marshal_case-size_case :
      (tag : ℕ) (a : A) (bytes : Bytes)
      → IsProto p
      → IsCodec p c
      → marshal_case p c tag a ≡ some bytes
      → size_case p c tag a ≡ length bytes
  unfolding marshal_case
  marshal_case-size_case tag a bytes q k h =
      let (frame, e, d) = add_key-frame p tag (c.encode a) bytes h in
      omega (
        arith,
        ap length d,
        length-append {0} (p.encode_varint (key tag)) frame,
        q.length-encode_varint (key tag),
        k.length-encode a frame e,
      )

  -- `unmarshal` is an unmarshaler which at this tag is at this case.
  pub case-ReadsBack :
      {P : Type 0} (unmarshal : ℕ → ℕ → Bytes → Option P → Unmarshaled P) (tag : ℕ) (wrap : A → P)
      (a : A) (old : Option P) (bytes rest : Bytes)
      → ((b : Bytes)
          → unmarshal (key tag / 8) (key tag % 8) b old ≡ unmarshal_case c.decode wrap 2 b old)
      → IsProto p
      → IsCodec p c
      → marshal_case p c tag a ≡ some bytes
      → ReadsBack p unmarshal (wrap a) old bytes rest
  unfolding unmarshal_case marshal_case
  case-ReadsBack unmarshal tag wrap a old bytes rest at_tag q k h =
      let (frame, e, d) = add_key-frame p tag (c.encode a) bytes h in
      (
        key tag,
        frame ++ rest,
        ap (λ b. p.decode_varint (b ++ rest)) d
            ∙ ap p.decode_varint (append_assoc (p.encode_varint (key tag)) frame rest)
            ∙ q.decode_varint-encode (key tag) (frame ++ rest),
        at_tag (frame ++ rest) ∙ ap (store_decoded wrap) (k.decode-encode a frame rest e),
      )
