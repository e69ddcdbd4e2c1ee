-- ===== src/Core/Tokens.antt =====
-- core/objects.go: tokens, key authorizations and the sanity of a challenge over its life.
use boulder.Prelude.Text.{Text, split, join, lacks, split-join, join-split}
use boulder.Prelude.{
  ◌≡◌, refl, sym, ◌∙◌, ap, true, false, none, some, List, [], ◌∷◌, ◌++◌, arith, all, ◌↔◌,
}
use boulder.Core.Types.{Challenge}
use boulder.Core.Objects.{
  is_token_byte, looks_like_a_token, check_parts, looks_like_key_authorization,
  expected_key_authorization, is_sane_for_client_offer, is_sane_for_validation, is_empty,
}

token_lacks_dot : (t : Text) → all is_token_byte t ≡ true → lacks b'.' t ≡ true
unfolding all is_token_byte lacks
token_lacks_dot [] h = refl
token_lacks_dot (c ∷ t) h = ground (arith, token_lacks_dot t)

token-lacks : (t : Text) → looks_like_a_token t ≡ true → lacks b'.' t ≡ true
unfolding looks_like_a_token
token-lacks t h = ground (arith, token_lacks_dot t)

split-token :
    (t u : Text)
    → looks_like_a_token t ≡ true
    → looks_like_a_token u ≡ true
    → split b'.' (t ++ b'.' ∷ u) ≡ t ∷ u ∷ []
unfolding join
split-token t u h k = split-join b'.' t (u ∷ []) (token-lacks t h, (token-lacks u k, tt))

parts_IsKeyAuth :
    (parts : List Text)
    → check_parts parts ≡ none
    → (t : Text) × (u : Text) × (parts ≡ t ∷ u ∷ [])
      × (looks_like_a_token t ≡ true)
      × (looks_like_a_token u ≡ true)
unfolding check_parts
parts_IsKeyAuth [] h = cc
parts_IsKeyAuth (a ∷ []) h = cc
parts_IsKeyAuth (a ∷ b ∷ []) h = (a, b, refl, ground arith, ground arith)
parts_IsKeyAuth (a ∷ b ∷ c ∷ rest) h = cc

-- A string passes as a key authorization exactly when it is a token, a dot and a thumbprint with the
-- syntax of a token.
pub looks_like_key_authorization_iff :
    (s : Text)
    → (looks_like_key_authorization s ≡ none) ↔ (
        (t : Text) × (u : Text) × (s ≡ t ++ b'.' ∷ u)
        × (looks_like_a_token t ≡ true)
        × (looks_like_a_token u ≡ true))
unfolding looks_like_key_authorization join
looks_like_key_authorization_iff s = (
  λ h.
      let (t, u, e, ht, hu) = parts_IsKeyAuth (split b'.' s) h in
      (t, u, sym (join-split b'.' s) ∙ ap (join b'.') e, ht, hu),
  λ (t, u, e, ht, hu). rw (e, split-token t u ht hu) (accepted t u ht hu),
)
  where
    accepted :
        (t u : Text)
        → looks_like_a_token t ≡ true
        → looks_like_a_token u ≡ true
        → check_parts (t ∷ u ∷ []) ≡ none
    accepted t u h k = unfold check_parts in rw (h, k)

dotted_not_empty : (t u : Text) → is_empty (t ++ b'.' ∷ u) ≡ false
dotted_not_empty [] u = refl
dotted_not_empty (c ∷ t) u = refl

offer-token :
    (ch : Challenge) → is_sane_for_client_offer ch ≡ true → looks_like_a_token ch.token ≡ true
unfolding is_sane_for_client_offer
offer-token ch h = ground arith

-- The challenge's life: one that was sane to offer to a client is sane to hand to the validation
-- authority once it carries the expected key authorization of a key whose thumbprint has the syntax
-- of a token; and it is then no longer sane to offer.
pub offer-to-validation :
    (ch : Challenge) (thumbprint answer : Text)
    → is_sane_for_client_offer ch ≡ true
    → looks_like_a_token thumbprint ≡ true
    → expected_key_authorization ch (some thumbprint) ≡ some answer
    → (is_sane_for_validation (record ch { provided_key_authorization = answer }) ≡ true)
      × (is_sane_for_client_offer (record ch { provided_key_authorization = answer }) ≡ false)
unfolding is_sane_for_client_offer is_sane_for_validation expected_key_authorization
offer-to-validation ch thumbprint answer h k e =
    let answer_ok : looks_like_key_authorization answer ≡ none =
      (looks_like_key_authorization_iff answer).1
        (ch.token, thumbprint, ground arith, offer-token ch h, k) in
    ground (arith, answer_ok, dotted_not_empty ch.token thumbprint)
