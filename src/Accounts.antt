-- ===== src/Accounts.antt =====
-- User management: accounts/services.py and the handlers of accounts/api/views.py and
-- accounts/api/serializers.py that change who is an administrator.
mod Users
pub mod LastAdmin
mod Examples
pub use Users.{Account, Store, Reply, saved, refused, Refusal, own_account, last_admin}
unfoldable pub use Users.{
  admin_group_user_count, would_remove_last_admin, set_user_roles, perform_destroy, perform_update,
}
