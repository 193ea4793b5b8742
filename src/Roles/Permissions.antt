-- ===== src/Roles/Permissions.antt =====
-- auth_roles.py, lines 154-229: the permission classes of the API's views.
use otwarte_dane_transportow.Common.{
  ℕ, Bool, true, false, ◌&&◌, ◌||◌, not, Option, none, some, ◌==◌, if◌then◌else◌,
}
use otwarte_dane_transportow.Roles.Users.{
  User, can_publish_blog, can_edit_any_blog, can_add_feeds, can_confirm_feeds, has_admin_role,
  can_manage_cases,
}

-- `request.method in SAFE_METHODS`, and `view.action == 'create'`.
pub record Request : Type 0 where
  pub is_safe : Bool
  pub is_create : Bool
  pub user : User

-- `RoleReadOnlyOrWritePermission.has_permission`
unfoldable pub role_read_only_or_write : (User → Bool) → Request → Bool
role_read_only_or_write write_check r = if r.is_safe then true else write_check r.user

unfoldable pub is_blogger_or_read_only : Request → Bool
unfolding role_read_only_or_write
is_blogger_or_read_only = role_read_only_or_write can_publish_blog

unfoldable pub is_case_manager_or_read_only : Request → Bool
unfolding role_read_only_or_write
is_case_manager_or_read_only = role_read_only_or_write can_manage_cases

-- `IsEditorOrOwnBloggerOrReadOnly`: of the view, and of a post with an author.
unfoldable pub blog_has_permission : Request → Bool
blog_has_permission r =
    if r.is_safe
    then true
    else if not r.user.is_authenticated
    then false
    else if r.is_create
    then can_publish_blog r.user || can_edit_any_blog r.user
    else can_publish_blog r.user || can_edit_any_blog r.user

unfoldable pub blog_has_object_permission : Request → Option ℕ → Bool
blog_has_object_permission r author_id =
    if r.is_safe
    then true
    else if not r.user.is_authenticated
    then false
    else if can_edit_any_blog r.user
    then true
    else if can_publish_blog r.user
    then elim author_id [ none ↦ false | some author ↦ author == r.user.id ]
    else false

-- `RequiresAdminGroup`
unfoldable pub requires_admin_group : Request → Bool
requires_admin_group r = has_admin_role r.user

-- `AdminGroupOrDebug`
unfoldable pub admin_group_or_debug : Bool → Request → Bool
admin_group_or_debug debug r = debug || has_admin_role r.user

-- `IsFeedParticipant`: of the view, and of a submission with an owner.
unfoldable pub feed_has_permission : Request → Bool
feed_has_permission r =
    if not r.user.is_authenticated
    then false
    else if r.is_create
    then can_add_feeds r.user
    else can_add_feeds r.user || can_confirm_feeds r.user

unfoldable pub feed_has_object_permission : Request → Option ℕ → Bool
feed_has_object_permission r submitted_by_id =
    if can_confirm_feeds r.user
    then true
    else can_add_feeds r.user
      && elim submitted_by_id [ none ↦ false | some owner ↦ owner == r.user.id ]
