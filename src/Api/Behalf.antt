-- ===== src/Api/Behalf.antt =====
-- internal/router/router.go and internal/handler/order.go: on whose behalf orders are placed and canceled.
use golang_predix.Common.{
  ◌≡◌, refl, ap, ◌⊎◌, inl, inr, Option, none, some, List, [], ◌∷◌, Text, Text-discrete, codes,
  arith,
}
use golang_predix.Api.Auth.{
  Claims, validate_token, split_spaces, Identity, refused, known, identify, check_parts,
  authenticate,
}
use golang_predix.Api.Tables.{Site}
use golang_predix.Api.Answers.{Floats, Outside}
use golang_predix.Api.Orders.{OrderBody}
use golang_predix.Api.Routes.{
  Protected, new_order_route, drop_order_route, protected_route, handle_protected, through, serve,
}
use golang_predix.Api.Guarded.{
  OrderSent, create_order-OrderSent, CancelSent, delete_order-CancelSent,
}

-- The header has two parts, "Bearer" and a token that is valid, and names a user.
pub record IsSigned (o : Outside) (header user : Text) : Type 0 where
  pub token : Text
  pub parts : split_spaces header ≡ codes "Bearer" ∷ token ∷ []
  pub claims : Claims
  pub valid : validate_token o.jwt o.secret o.now token ≡ some claims
  pub its_user : claims.user_id ≡ user

identify-known :
    (c : Option Claims) (user email : Text)
    → identify c ≡ known user email
    → (d : Claims) × (c ≡ some d) × (d.user_id ≡ user)
unfolding identify
identify-known none user email h = absurd (ground arith)
identify-known (some c) user email h = (c, refl, ground arith)

module _ (o : Outside) where
  check_parts-known :
      (parts : List Text) (user email : Text)
      → check_parts o.jwt o.secret o.now parts ≡ known user email
      → (token : Text) × (c : Claims) × (parts ≡ codes "Bearer" ∷ token ∷ [])
        × (validate_token o.jwt o.secret o.now token ≡ some c)
        × (c.user_id ≡ user)
  unfolding check_parts
  check_parts-known [] user email h = absurd (ground arith)
  check_parts-known (scheme ∷ []) user email h = absurd (ground arith)
  check_parts-known (scheme ∷ token ∷ []) user email h =
      elim (Text-discrete scheme (codes "Bearer")) [
        | yes e ↦
            let (c, valid, its) = identify-known _ user email (ground arith) in
            (token, c, ap (λ t. t ∷ token ∷ []) e, valid, its)
        | no ne ↦ absurd (ground arith)
      ]
  check_parts-known (scheme ∷ token ∷ more ∷ rest) user email h = absurd (ground arith)

  authenticate-IsSigned :
      (header user email : Text)
      → authenticate o.jwt o.secret o.now header ≡ known user email
      → IsSigned o header user
  unfolding authenticate
  authenticate-IsSigned header user email h =
      let (token, c, parts, valid, its) =
        check_parts-known (split_spaces header) user email (ground arith) in
      record { token = token; parts = parts; claims = c; valid = valid; its_user = its }

  Identity-cases :
      (i : Identity)
      → ((user : Text) × (email : Text) × (i ≡ known user email)) ⊎ ((e : _) × (i ≡ refused e))
  Identity-cases (refused e) = inr (e, refl)
  Identity-cases (known user email) = inl (user, email, refl)

  module _ {Float : Type 0} (fl : Floats Float) where
    -- A protected route changes nothing, or is served to a user whose valid token is in the header.
    abbrev Outcome : Text → Protected Float → Site → Type 0
    Outcome header route s =
        ((serve fl o (protected_route header route) s).1 ≡ s)
        ⊎ ((user : Text) × IsSigned o header user
            × (serve fl o (protected_route header route) s
                ≡ handle_protected fl o route (some user) s))

    serve_protected : (header : Text) (route : Protected Float) (s : Site) → Outcome header route s
    unfolding serve
    serve_protected header route s =
        elim (Identity-cases (authenticate o.jwt o.secret o.now header)) [
          | inl (user, email, e) ↦
              inr (user, authenticate-IsSigned header user email e, rw e (unfold through in refl))
          | inr (x, e) ↦ inl (rw e (unfold through in refl))
        ]

    -- A request for an order changes nothing, or its header has a valid token, and then: it changes no table, and writes
    -- up to three copies of one command to the stream of the event that its body names and nothing to any other;
    -- the command is for the order of the body, on behalf of the user of the token and at the scaled price; the body passes
    -- the binding tags, a LIMIT order has a positive price, and the id of the event can be read as the id of an event
    -- with a row that is active.
    pub order_is_authorised :
        (header : Text) (body : Option (OrderBody Float)) (s : Site)
        → let s' = (serve fl o (protected_route header (new_order_route body)) s).1 in
          (s' ≡ s) ⊎ ((user : Text) × IsSigned o header user × OrderSent fl o (some user) body s s')
    order_is_authorised header body s = elim (serve_protected header (new_order_route body) s) [
      | inl e ↦ inl e
      | inr (user, signed, e) ↦ rw e (
          unfold handle_protected in
          elim (create_order-OrderSent fl o (some user) body s) [
            | inl same ↦ inl same
            | inr sent ↦ inr (user, signed, sent)
          ])
    ]

    -- A request to cancel an order changes nothing, or its header has a valid token, and then: the order has a row, and its
    -- user is the one of the token; the request changes no table, and writes up to three copies of one command, to cancel
    -- this order, to the stream of the order's event and nothing to any other.
    pub cancel_is_authorised :
        (header id : Text) (s : Site)
        → let s' = (serve fl o (protected_route header (drop_order_route id)) s).1 in
          (s' ≡ s) ⊎ ((user : Text) × IsSigned o header user × CancelSent o (some user) id s s')
    cancel_is_authorised header id s = elim (serve_protected header (drop_order_route id) s) [
      | inl e ↦ inl e
      | inr (user, signed, e) ↦ rw e (
          unfold handle_protected in
          elim (delete_order-CancelSent o (some user) id s) [
            | inl same ↦ inl same
            | inr sent ↦ inr (user, signed, sent)
          ])
    ]
