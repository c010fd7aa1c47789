-- ===== src/Engine/Commands/Timeless.antt =====
-- internal/engine/replay.go: what a command does to the store, but for times, does not depend on when it is done.
use golang_predix.Common.{
  ◌≡◌, refl, sym, ◌∙◌, ap, false, Option, none, some, Text, arith, if◌then◌else◌,
}
use golang_predix.Common.Int.{pos, leb_ℤ}
use golang_predix.Common.Dict.{contains, insert}
use golang_predix.Engine.Types.{Order, Store, default_starting_balance, new_market}
use golang_predix.Engine.Ledger.{create_user, put_balance, no_balance}
use golang_predix.Engine.Events.{World}
use golang_predix.Engine.Orders.{
  Failure, Reply, CreateRequest, CancelRequest, is_empty, validate_order, new_order, admit,
  match_order,
}
use golang_predix.Engine.Handlers.{env_of, cancel_checked}
use golang_predix.Engine.Commands.{
  CommandType, create_order_command, cancel_order_command, get_depth_command,
  get_open_orders_command, create_event_command, user_created_command, no_command, unknown_command,
  Payload, Command,
}
use golang_predix.Engine.Commands.Rebuild.{
  placed_effect, create_effect, cancel_effect, event_effect, user_effect, effect,
}
use golang_predix.Engine.Undated.{if-apply, undated, undated_store}
use golang_predix.Engine.Undated.Match.{timeless}
use golang_predix.Engine.Undated.Ledger.{undated_after}
use golang_predix.Engine.Undated.Orders.{admit-undated, match_order-undated}
use golang_predix.Engine.Undated.Cancel.{cancel_checked-undated}

-- The creation of an order that is told of no time.
abbrev calm_placed : Text → Option Reply × Store → Store
calm_placed r (some x, s) = s
calm_placed r (none, s) = (match_order timeless r s).1

abbrev calm_valid : Order → Store → Option Failure → Store
calm_valid o s (some f) = s
calm_valid o s none = calm_placed o.id (admit o s)

abbrev calm_create : Order → Store → Store
calm_create o s = if leb_ℤ o.quantity (pos 0) then s else calm_valid o s (validate_order o)

placed_effect-undated :
    (w : World) (o : Order) (x : Option Reply × Store)
    → undated_store (placed_effect w o x) ≡ calm_placed o.id (undated_after x)
unfolding placed_effect
placed_effect-undated w o (some x, s) = refl
placed_effect-undated w o (none, s) = match_order-undated (env_of w) o.id s

abbrev valid_effect : World → Order → Store → Option Failure → Store
valid_effect w o s v = elim v [ some f ↦ s | none ↦ placed_effect w o (admit o s) ]

valid_effect-undated :
    (w : World) (o : Order) (s : Store) (v : Option Failure)
    → undated_store (valid_effect w o s v) ≡ calm_valid (undated o) (undated_store s) v
valid_effect-undated w o s (some f) = refl
valid_effect-undated w o s none =
    placed_effect-undated w o (admit o s) ∙ ap (calm_placed o.id) (admit-undated o s)

create_effect-undated :
    (w : World) (q : CreateRequest) (s : Store)
    → undated_store (create_effect w (some q) s)
      ≡ calm_create (undated (new_order w q)) (undated_store s)
unfolding create_effect new_order validate_order
create_effect-undated w q s =
    let o = new_order w q in
    let v = validate_order o in
    let test = leb_ℤ q.quantity (pos 0) in
    if-apply (λ x. undated_store x) test s (valid_effect w o s v)
    ∙ ap (λ x. if test then undated_store s else x) (valid_effect-undated w o s v)

new_order-undated :
    (w w' : World) (q : CreateRequest)
    → is_empty q.order_id ≡ false
    → undated (new_order w q) ≡ undated (new_order w' q)
unfolding new_order
new_order-undated w w' q named = ground (arith, named)

cancel_effect-undated :
    (q : Option CancelRequest) (s : Store)
    → undated_store (cancel_effect q s) ≡ cancel_effect q (undated_store s)
unfolding cancel_effect
cancel_effect-undated none s = refl
cancel_effect-undated (some q) s =
    let test = is_empty q.order_id in
    if-apply (λ x. undated_store x) test s (cancel_checked q.order_id q.event_id s).1
    ∙ ap (λ (x : Option Failure × Store). if test then undated_store s else x.1)
        (cancel_checked-undated q.order_id q.event_id s)

event_effect-undated :
    (q : Option Text) (s : Store)
    → undated_store (event_effect q s) ≡ event_effect q (undated_store s)
unfolding event_effect
event_effect-undated none s = refl
event_effect-undated (some v) s =
    let new = record s { markets = insert v new_market s.markets } in
    let old = contains v s.markets in
    let test = is_empty v in
    if-apply (λ x. undated_store x) test s (if old then s else new)
    ∙ ap (λ x. if test then undated_store s else x) (if-apply (λ x. undated_store x) old s new)

user_effect-undated :
    (q : Option Text) (s : Store)
    → undated_store (user_effect q s) ≡ user_effect q (undated_store s)
unfolding user_effect create_user put_balance
user_effect-undated none s = refl
user_effect-undated (some u) s =
    let old = contains u s.balances in
    let new = put_balance u (record no_balance { available = default_starting_balance }) s in
    let test = is_empty u in
    if-apply (λ x. undated_store x) test s (if old then s else new)
    ∙ ap (λ x. if test then undated_store s else x) (if-apply (λ x. undated_store x) old s new)

-- A request that has an id for its order, or none that can be read.
abbrev pub HasId : Option CreateRequest → Type 0
HasId none = Unit
HasId (some q) = is_empty q.order_id ≡ false

-- A command that, if it is to create an order, has an id for it.
abbrev pub NamesOrder : CommandType → Payload → Type 0
NamesOrder create_order_command d = HasId d.as_create
NamesOrder _ d = Unit

abbrev pub IsNamed : Option Command → Type 0
IsNamed none = Unit
IsNamed (some c) = NamesOrder c.kind c.payload

create_again :
    (w w' : World) (q : Option CreateRequest) (s t : Store)
    → HasId q
    → undated_store s ≡ undated_store t
    → undated_store (create_effect w q s) ≡ undated_store (create_effect w' q t)
unfolding create_effect
create_again w w' none s t named same = same
create_again w w' (some q) s t named same =
    create_effect-undated w q s
    ∙ (ap (λ o. calm_create o (undated_store s)) (new_order-undated w w' q named)
        ∙ (ap (calm_create (undated (new_order w' q))) same ∙ sym (create_effect-undated w' q t)))

-- An effect that commutes takes stores that are alike to stores that are.
alike :
    (f : Store → Store)
    → ((s : Store) → undated_store (f s) ≡ f (undated_store s))
    → (s t : Store) → undated_store s ≡ undated_store t
    → undated_store (f s) ≡ undated_store (f t)
alike f commutes s t same = commutes s ∙ (ap f same ∙ sym (commutes t))

pub effect_again :
    (w w' : World) (k : CommandType) (d : Payload) (s t : Store)
    → NamesOrder k d
    → undated_store s ≡ undated_store t
    → undated_store (effect w k d s) ≡ undated_store (effect w' k d t)
unfolding effect
effect_again w w' create_order_command d s t named same =
    create_again w w' d.as_create s t named same
effect_again w w' cancel_order_command d s t named same =
    alike (cancel_effect d.as_cancel) (cancel_effect-undated d.as_cancel) s t same
effect_again w w' create_event_command d s t named same =
    alike (event_effect d.as_event) (event_effect-undated d.as_event) s t same
effect_again w w' user_created_command d s t named same =
    alike (user_effect d.as_user) (user_effect-undated d.as_user) s t same
effect_again w w' get_depth_command d s t named same = same
effect_again w w' get_open_orders_command d s t named same = same
effect_again w w' no_command d s t named same = same
effect_again w w' unknown_command d s t named same = same
