-- ===== src/Server/Legacy.antt =====
-- The dispatch of `handle_client` in src/spore_peer.rs on a frame that is JSON.
use spore_peer.Prelude.{
  arith, subst, sym, ◌≡◌, ◌≢◌, refl, none, Result-cases, inl, inr, ◌∷◌, Bytes, ◌==◌, Ensures, holds,
  Ensures-bind, Ensures-if, Ensures-ok_or, Ensures-guard, Ensures-ok, ok,
}
use spore_peer.Json.{as_object}
use spore_peer.Text.{is_utf8}
use spore_peer.Crates.{Crates, Hex}
use spore_peer.Words.{checked_add}
use spore_peer.Cbor.Decode.{
  Decoder, max_depth, Head, Rpc2Message, get_range, read_arg, head_args, read_head, decode_string,
  decode_body, decode_levels, decode_value, decode_message,
}
use spore_peer.Cbor.Bounds.{decode_message-ne-panic}
use spore_peer.Server.{Server, Setting, handle_legacy, dispatch, handle_frame}

brace_head : (rest : Bytes) → Ensures (λ h. h.major ≡ 3) (read_head (b'{' ∷ rest))
unfolding read_head head_args read_arg
brace_head rest =
    Ensures-bind {P = λ b. Unit {0}} (Ensures-ok_or (get_range rest 0 8) tt (λ b e. tt))
      (λ b u. holds refl)

decode_string_text :
    (hex : Hex) (h : Head) (buf : Bytes)
    → Ensures (λ r. as_object r.0 ≡ none) (decode_string hex h buf)
unfolding decode_string
decode_string_text hex h buf =
    Ensures-bind {P = λ x. Unit {0}} (Ensures-ok_or (checked_add h.pos h.n) tt (λ x e. tt)) (λ x u.
      Ensures-bind {P = λ x. Unit {0}} (Ensures-ok_or (get_range buf h.pos x) tt (λ y e. tt))
        (λ b w.
          Ensures-if (h.major == 3)
            (λ e. Ensures-bind (Ensures-guard (is_utf8 b) tt) (λ t z. holds refl))
            (λ e. holds refl)))

decode_body-text :
    (hex : Hex) (child : Decoder) (h : Head) (buf : Bytes)
    → h.major ≡ 3
    → decode_body hex child h buf ≡ decode_string hex h buf
unfolding decode_body
decode_body-text hex child h buf three = ground (arith, three)

-- An opening brace is the head of a text, which is no map.
brace_text :
    (hex : Hex) (rest : Bytes)
    → Ensures (λ r. as_object r.0 ≡ none) (decode_value hex (b'{' ∷ rest) 0)
unfolding decode_value decode_levels
brace_text hex rest = Ensures-bind (brace_head rest) (λ h three.
    subst (Ensures (λ r. as_object r.0 ≡ none))
      (sym (decode_body-text hex (decode_levels hex max_depth) h (b'{' ∷ rest) three))
      (decode_string_text hex h (b'{' ∷ rest)))

brace_message :
    (hex : Hex) (rest : Bytes) (m : Rpc2Message) → decode_message hex (b'{' ∷ rest) ≢ ok m
unfolding decode_message
brace_message hex rest m e = elim (Result-cases (decode_value hex (b'{' ∷ rest) 0)) [
  | inl ((v, n), y) ↦ cc (rw (y, Ensures-ok y (brace_text hex rest)) at e)
  | inr (inl (u, y)) ↦ cc (rw y at e)
  | inr (inr y) ↦ cc (rw y at e)
]

-- A frame that begins with an opening brace is never taken for a CBOR message: it is always handled as
-- a legacy JSON request, whatever follows.
pub handle_frame-legacy :
    (c : Crates) (env : Setting) (s : Server) (rest : Bytes)
    → handle_frame c env s (b'{' ∷ rest) ≡ handle_legacy c env s (c.json.from_slice (b'{' ∷ rest))
unfolding handle_frame dispatch
handle_frame-legacy c env s rest = elim (Result-cases (decode_message c.hex (b'{' ∷ rest))) [
  | inl (m, y) ↦ absurd (brace_message c.hex rest m y)
  | inr (inl (u, y)) ↦ rw y refl
  | inr (inr y) ↦ absurd (decode_message-ne-panic c.hex (b'{' ∷ rest) y)
]
