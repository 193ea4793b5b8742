-- ===== src/Roles/Examples.antt =====
-- Users at work, and the theorems at them.
use otwarte_dane_transportow.Common.{◌≡◌, refl, ◌↔◌, true, false, none, some, [], ◌∷◌}
use otwarte_dane_transportow.Roles.Users.{
  data_provider, helper, User, Submission, has_role, can_publish_blog, can_manage_cases,
  can_edit_any_blog, has_admin_role, can_add_feeds, can_confirm_feeds, can_edit_static_feed_source,
  can_edit_realtime_submission_content, is_helper_reviewer,
}
use otwarte_dane_transportow.Roles.Permissions.{
  is_blogger_or_read_only, is_case_manager_or_read_only, blog_has_permission,
  blog_has_object_permission, requires_admin_group, admin_group_or_debug, feed_has_permission,
  feed_has_object_permission, Request,
}
use otwarte_dane_transportow.Roles.Rights.{MayEdit, can_edit_iff}

abbrev provider : User
provider = record {
  id = 7;
  is_authenticated = true;
  is_superuser = false;
  is_active = true;
  groups = data_provider ∷ [];
  cached_role_names = none;
}

abbrev superuser : User
superuser = record provider { id = 1; is_superuser = true; groups = [] }

abbrev rejected_submission : Submission
rejected_submission = record { submitted_by_id = some 7; is_rejected = true; current_stage = 1 }

owner_may_resubmit : can_edit_static_feed_source provider rejected_submission ≡ true
unfolding can_edit_static_feed_source
owner_may_resubmit = refl

superuser_may_not : can_edit_static_feed_source superuser rejected_submission ≡ false
unfolding can_edit_static_feed_source
superuser_may_not = refl

superuser_reviews : has_role superuser helper ≡ true
unfolding has_role
superuser_reviews = refl

not_a_reviewer : is_helper_reviewer superuser ≡ false
unfolding is_helper_reviewer
not_a_reviewer = refl

abbrev write_request : Request
write_request = record { is_safe = false; is_create = false; user = provider }

permissions_of_provider :
    (is_blogger_or_read_only write_request ≡ false)
    × (is_case_manager_or_read_only write_request ≡ false)
    × (blog_has_permission write_request ≡ false)
    × (blog_has_object_permission write_request (some 7) ≡ false)
    × (requires_admin_group write_request ≡ false)
    × (admin_group_or_debug true write_request ≡ true)
    × (feed_has_permission write_request ≡ true)
    × (feed_has_object_permission write_request (some 7) ≡ true)
    × (feed_has_object_permission write_request (some 8) ≡ false)
unfolding is_blogger_or_read_only is_case_manager_or_read_only blog_has_permission
    blog_has_object_permission requires_admin_group admin_group_or_debug feed_has_permission
    feed_has_object_permission has_role can_publish_blog can_manage_cases can_edit_any_blog
    has_admin_role can_add_feeds can_confirm_feeds
permissions_of_provider = (refl, refl, refl, refl, refl, refl, refl, refl, refl)

can_edit_iff_example :
    ((can_edit_static_feed_source provider rejected_submission ≡ true)
      ↔ MayEdit provider rejected_submission)
    × ((can_edit_realtime_submission_content provider rejected_submission ≡ true)
        ↔ MayEdit provider rejected_submission)
can_edit_iff_example = can_edit_iff provider rejected_submission
