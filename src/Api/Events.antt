-- ===== src/Api/Events.antt =====
-- internal/handler/event.go and internal/dto/event.go.
use golang_predix.Common.{Bool, not, ◌&&◌, Option, none, some, Text, if◌then◌else◌}
use golang_predix.Engine.Orders.{is_empty}
use golang_predix.Engine.Commands.{create_event_command, Response}
use golang_predix.Api.Tables.{
  EventRow, EventParams, Site, create_event, delete_event, active_events,
}
use golang_predix.Api.Answers.{
  ok_200, created_201, bad_request_400, not_found_404, internal_500, events_not_fetched,
  invalid_event_id, event_unknown, invalid_expires_at, event_not_created, orderbook_silent,
  event_list, one_event, Answer, deny, give, Guarded, stop, pass, ◌>>=◌, ◌>>◌, stop_if, need,
  get_active_events, create_event_row, delete_event_row, Outside,
}
use golang_predix.Api.Users.{payload_of, no_fields, bad_body}
use golang_predix.Api.Orders.{get_event_by_id, send}

-- `CreateEventRequest`
pub record EventBody : Type 0 where
  pub title : Text
  pub description : Text
  pub question : Text
  pub image_url : Text
  pub expires_at : Text

-- `GetEvents`; an empty list is written as one too.
unfoldable pub get_events : Outside → Site → Guarded Answer
get_events o s = do
  stop_if (o.refuses get_active_events) (deny internal_500 events_not_fetched)
  pass (give ok_200 (event_list (active_events s.events)))

-- `GetEvent`
unfoldable pub get_event : Outside → Text → Site → Guarded Answer
get_event o event_id s = do
  id ← need (o.parse_uuid event_id) (deny bad_request_400 invalid_event_id)
  row ← need (get_event_by_id o id s) (deny not_found_404 event_unknown)
  pass (give ok_200 (one_event row))

-- The binding tags of `CreateEventRequest`.
unfoldable pub binds_event : Outside → EventBody → Bool
binds_event o b =
    not (is_empty b.title)
    && not (is_empty b.description)
    && not (is_empty b.question)
    && not (is_empty b.image_url)
    && o.is_url b.image_url
    && not (is_empty b.expires_at)

-- `CreateEvent` up to the insertion of the event.
unfoldable pub check_event : Outside → Option EventBody → Guarded EventParams
check_event o body = do
  b ← need body bad_body
  stop_if (not (binds_event o b)) bad_body
  time ← need (o.parse_time b.expires_at) (deny bad_request_400 invalid_expires_at)
  stop_if (o.refuses create_event_row) (deny internal_500 event_not_created)
  pass (record {
    title = b.title;
    description = b.description;
    question = b.question;
    thumbnail = b.image_url;
    expires_at = time;
  })

-- The deletion of the event that the engine did not take; its error is dropped.
unfoldable pub roll_back : Outside → Text → Site → Site
roll_back o id s = if o.refuses delete_event_row then s else delete_event id s

-- The end of `CreateEvent`.
unfoldable pub conclude :
    Outside → EventRow → Option (Option Response) → Site → Option Answer × Site
conclude o row none s = (none, s)
conclude o row (some none) s = (some (deny bad_request_400 orderbook_silent), roll_back o row.id s)
conclude o row (some (some x)) s = (some (give created_201 (one_event row)), s)

-- `CreateEvent` from the insertion on.
unfoldable pub open_event : Outside → EventParams → Site → Option Answer × Site
open_event o p s =
    let (row, s') = create_event o.row_id o.now p s in
    let payload = payload_of (record no_fields { event_id = row.id }) in
    let (result, s'') = send o row.id create_event_command payload s' in conclude o row result s''

-- `CreateEvent`
unfoldable pub create_event_handler : Outside → Option EventBody → Site → Option Answer × Site
create_event_handler o body s = elim (check_event o body) [
  | stop a ↦ (some a, s)
  | pass p ↦ open_event o p s
]
