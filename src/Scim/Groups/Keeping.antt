-- ===== src/Scim/Groups/Keeping.antt =====
-- Every operation on the directory keeps it sound.
use breach_scope.Prelude.{String, ◌≢◌, List, [], ◌∷◌, map, In}
use breach_scope.Prelude.Json.{Value}
use breach_scope.Scim.Records.{User, Group, Directory, Runtime}
use breach_scope.Scim.Users.{create_user, replace_user, patch_user}
use breach_scope.Prelude.Dict.{keys}
use breach_scope.Scim.Groups.{
  node, create_group, replace_group, patch_group, delete_group, delete_user,
}
use breach_scope.Scim.Groups.Soundness.{IsSound}
use breach_scope.Scim.Groups.Writing.{
  saved-IsSound, create_rows-RowsAreSound, replace_rows-RowsAreSound, patch_rows-RowsAreSound,
}
use breach_scope.Scim.Groups.People.{
  saved_users-IsSound, create_user_rows-PeopleAreSound, replace_user_rows-PeopleAreSound,
  patch_user_rows-PeopleAreSound,
}
use breach_scope.Scim.Groups.Deleting.{delete_group-IsSound, delete_user-IsSound}

-- What a client asks of the directory. `fresh` is the identifier that a new row would get.
pub data Request : Type 0 where
  creation user_creation : (fresh now : String) → Value → Request
  replacement patching user_replacement user_patching : (fresh now id : String) → Value → Request
  group_deletion user_deletion : (now id : String) → Request

-- The identifier of a new row is not empty and not in use.
abbrev pub IsFresh : Request → Directory → Type 0
IsFresh (creation fresh now body) d =
    (fresh ≢ "") × (¬ In fresh (map (λ (g : Group). g.id) d.groups))
IsFresh (user_creation fresh now body) d =
    (fresh ≢ "")
    × (¬ In fresh (map (λ (u : User). u.id) d.users))
    × (¬ In fresh (keys (map node d.groups)))
IsFresh (user_replacement fresh now id body) d = Unit
IsFresh (user_patching fresh now id payload) d = Unit
IsFresh (replacement fresh now id body) d = Unit
IsFresh (patching fresh now id payload) d = Unit
IsFresh (group_deletion now id) d = Unit
IsFresh (user_deletion now id) d = Unit

module _ (rt : Runtime) (digest : User → String) (base_url : String) where
  -- The directory after a request.
  unfoldable pub perform : Request → Directory → Directory
  unfolding create_group replace_group patch_group create_user replace_user patch_user
  perform (creation fresh now body) d = (create_group rt base_url fresh now body d).1
  perform (replacement fresh now id body) d = (replace_group rt base_url fresh now id body d).1
  perform (patching fresh now id payload) d = (patch_group rt base_url fresh now id payload d).1
  perform (user_creation fresh now body) d = (create_user rt digest base_url fresh now body d).1
  perform (user_replacement fresh now id body) d =
      (replace_user rt digest base_url fresh now id body d).1
  perform (user_patching fresh now id payload) d =
      (patch_user rt digest base_url fresh now id payload d).1
  perform (group_deletion now id) d = (delete_group now id d).1
  perform (user_deletion now id) d = (delete_user now id d).1

  unfoldable pub perform_all : List Request → Directory → Directory
  unfolding perform
  perform_all [] d = d
  perform_all (r ∷ rs) d = perform_all rs (perform r d)

  abbrev pub AreFresh : List Request → Directory → Type 0
  AreFresh [] d = Unit
  AreFresh (r ∷ rs) d = IsFresh r d × AreFresh rs (perform r d)

  perform-IsSound :
      (r : Request) (d : Directory) → IsFresh r d → IsSound rt d → IsSound rt (perform r d)
  unfolding perform create_group replace_group patch_group create_user replace_user patch_user
  perform-IsSound (creation fresh now body) d f s =
      saved-IsSound rt base_url d _ s
        (create_rows-RowsAreSound rt base_url fresh now body d f.0 f.1 s)
  perform-IsSound (replacement fresh now id body) d f s =
      saved-IsSound rt base_url d _ s (replace_rows-RowsAreSound rt base_url fresh now id body d s)
  perform-IsSound (patching fresh now id payload) d f s =
      saved-IsSound rt base_url d _ s (patch_rows-RowsAreSound rt base_url fresh now id payload d s)
  perform-IsSound (user_creation fresh now body) d f s =
      saved_users-IsSound rt d s digest base_url _
        (create_user_rows-PeopleAreSound rt d s digest base_url fresh now body f.0 f.1 f.2)
  perform-IsSound (user_replacement fresh now id body) d f s =
      saved_users-IsSound rt d s digest base_url _
        (replace_user_rows-PeopleAreSound rt d s digest base_url fresh now id body)
  perform-IsSound (user_patching fresh now id payload) d f s =
      saved_users-IsSound rt d s digest base_url _
        (patch_user_rows-PeopleAreSound rt d s digest base_url fresh now id payload)
  perform-IsSound (group_deletion now id) d f s = delete_group-IsSound rt now id d s
  perform-IsSound (user_deletion now id) d f s = delete_user-IsSound rt now id d s

  -- Whatever requests on users and groups follow each other, those that fail included, and as long as new
  -- identifiers are fresh, a sound directory stays sound: ids, user names and external ids, group names without
  -- doubles, an external id for each active user, members that exist, no group within itself, and roles that
  -- are known in organizations that are well formed.
  pub perform_all-IsSound :
      (rs : List Request) (d : Directory)
      → AreFresh rs d
      → IsSound rt d
      → IsSound rt (perform_all rs d)
  unfolding perform_all
  perform_all-IsSound [] d f s = s
  perform_all-IsSound (r ∷ rs) d f s =
      perform_all-IsSound rs (perform r d) f.1 (perform-IsSound r d f.0 s)
