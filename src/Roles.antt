-- ===== src/Roles.antt =====
-- Roles and rights: OtwarteDaneTransportowe/auth_roles.py.
mod Users
pub mod Permissions
pub mod Rights
mod Examples
pub use Users.{
  Role, admin, blogger, editor, data_provider, helper, other, role_eq, User, Submission,
}
unfoldable pub use Users.{
  has_group, role_names, remember_roles, is_admin, has_role, can_publish_blog, can_edit_any_blog,
  can_add_feeds, can_confirm_feeds, has_admin_role, is_helper_reviewer,
  is_submission_owner_provider, can_edit_static_feed_source, can_edit_realtime_submission_content,
  can_manage_cases,
}
