-- ===== src/Store/Spaces.antt =====
-- space_repository.go
use ms_go_comment.Base.{
  Bool, List, Option, Text, [], any, conflict, drop, err, false, find, if◌then◌else◌, keep, leb,
  ltb, ltb_ℤ, none, not, not_found, ok, pos, pos_part, some, take, text_eq, true, ℤ, ◌!=◌, ◌&&◌,
  ◌++◌, ◌==◌, ◌||◌, ◌∷◌,
}
use ms_go_comment.Domain.Common.{Uuid}
use ms_go_comment.Domain.Space.{Space, SpaceStatus, is_active_space, is_disabled_space}
use ms_go_comment.Store.Database.{Query, affecting, or_not_found, reads}
use ms_go_comment.Store.Rows.{sort_by, update_where}

-- The primary key and the unique key of the table: a collision is `ErrConflict`, by `mapError`.
unfoldable pub create_space : Space → Query (Unit {0})
create_space item now d =
    affecting (not (any (λ s. s.id == item.id || text_eq s.key item.key) d.spaces)) conflict d
      (record d { spaces = d.spaces ++ item ∷ [] })

unfoldable pub get_space : Uuid → Query Space
get_space id = reads λ d. or_not_found (find (λ s. s.id == id) d.spaces)

unfoldable pub get_space_by_key : Text → Query Space
get_space_by_key key = reads λ d. or_not_found (find (λ s. text_eq s.key key) d.spaces)

-- The columns that the statement sets.
abbrev pub set_space : Space → Space → Space
set_space item row = record row {
  key = item.key;
  name = item.name;
  status = item.status;
  access_mode = item.access_mode;
  allowed_origins = item.allowed_origins;
  policy = item.policy;
  updated_at = item.updated_at;
}

-- `Update`; a key that another row holds is `ErrConflict`.
unfoldable pub update_space : Space → Query (Unit {0})
unfolding update_where
update_space item now d =
    if any (λ s. s.id != item.id && text_eq s.key item.key) d.spaces
      && any (λ s. s.id == item.id) d.spaces
    then (err conflict, d)
    else affecting (any (λ s. s.id == item.id) d.spaces) not_found d
        (record d { spaces = update_where (λ s. s.id == item.id) (set_space item) d.spaces })

-- `ORDER BY created_at, id`
abbrev pub space_before : Space → Space → Bool
space_before a b = ltb a.created_at b.created_at || (a.created_at == b.created_at && leb a.id b.id)

abbrev pub space_status_is : Option SpaceStatus → Space → Bool
space_status_is none s = true
space_status_is (some SpaceStatus.disabled) s = is_disabled_space s.status
space_status_is (some SpaceStatus.active) s = is_active_space s.status
space_status_is (some (SpaceStatus.other n)) s = false

-- `List`; a limit below 1 is 20.
unfoldable pub list_spaces : Option SpaceStatus → ℤ → ℤ → Query (List Space)
unfolding sort_by
list_spaces status limit offset = reads λ d.
    let limit' = if ltb_ℤ limit (pos 1) then pos 20 else limit in
    ok (
      take (pos_part limit')
        (drop (pos_part offset) (sort_by space_before (keep (space_status_is status) d.spaces))))
