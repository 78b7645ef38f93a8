-- ===== src/Bus/Envelope.antt =====
-- What the envelope carries comes out of it.
use goxo.Base.{◌≡◌, refl, ap, List, [], ◌∷◌, map, ok, map_err-eq-ok}
use goxo.Base.Text.{Str}
use goxo.Json.{str, items}
use goxo.Bus.Control.{
  Coder, Base64, wrap_control, control_selector, control_dict, strings, agents_from_dict,
  inner_from_dict, wrap, unwrap,
}

strings-items : (agents : List Str) → strings (items (map str agents)) ≡ agents
unfolding strings
strings-items [] = refl
strings-items (a ∷ agents) = ap (◌∷◌ a) (strings-items agents)

agents_from_dict-control_dict :
    (b : Base64) (agents : List Str) (inner : Str)
    → agents_from_dict (control_dict b agents inner) ≡ agents
unfolding agents_from_dict control_dict
agents_from_dict-control_dict b agents inner = strings-items agents

module _ {E : Type 0} (b : Base64) (c : Coder E) where
  -- What wrapControl produced unwraps to the agents and the inner bytes that it was given, wherever
  -- base64 undoes itself and the codec decodes the envelope's bytes to the dict that was encoded.
  pub unwrap-wrap :
      (agents : List Str) (inner body : Str)
      → b.decode_string (b.encode_to_string inner) ≡ ok inner
      → ((w : Str)
          → c.encode control_selector (control_dict b agents inner) ≡ ok w
          → c.decode control_selector w ≡ ok (control_dict b agents inner))
      → wrap b c agents inner ≡ ok body
      → unwrap b c body ≡ ok (agents, inner)
  unfolding wrap unwrap inner_from_dict
  unwrap-wrap agents inner body b64 codec h =
      rw (codec body (map_err-eq-ok wrap_control _ h))
        (rw b64 (ap (λ a. ok (a, inner)) (strings-items agents)))
