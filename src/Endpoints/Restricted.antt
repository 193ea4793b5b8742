-- ===== src/Endpoints/Restricted.antt =====
-- What an edit after stage 1 may change, where the user does not hold the Admin group.
use otwarte_dane_transportow.Common.{
  ℕ, ◌≤◌, not, ◌≡◌, refl, sym, ap, ◌∙◌, Bool, true, false, Option, none, some, List, [], ◌∷◌, map,
  ◌==◌, Text, text_eq_sound, Bool-cases, inl, inr, arith,
}
use otwarte_dane_transportow.History.{Protocol, gtfs_rt, siri, gbfs, EndpointType}
use otwarte_dane_transportow.Scheduler.EntityTypes.{rank}
use otwarte_dane_transportow.Endpoints.Rows.{
  EndpointRt, StaticRef, RealtimeInstance, EndpointData, RealtimeData,
}
use otwarte_dane_transportow.Endpoints.Merging.{by_type}
use otwarte_dane_transportow.Endpoints.Checks.{
  Fault, Checked, passed, fault, ◌>>=◌, fault_if, name_changed, organization_changed,
  static_changed, protocol_changed, changes_text, changes_id, same_id, changes_static,
  same_protocol, changes_protocol, check_restricted, validate_update, or_old,
}
use otwarte_dane_transportow.Endpoints.Updates.{
  with_sent_data, save_interval, is_clean, new_interval, interval_of, save_intervals,
  with_endpoints, save_endpoints, update_content, update_by,
}
use otwarte_dane_transportow.Roles.{
  User, Submission, has_admin_role, can_edit_realtime_submission_content,
}

-- An endpoint apart from its interval.
abbrev pub fixed_part : EndpointRt → EndpointRt
fixed_part e = record e { interval = 0 }

-- The fields that a restricted edit leaves as they were.
pub record IsSameBut (old new : RealtimeInstance) : Type 0 where
  pub name : new.name ≡ old.name
  pub organization : new.transport_organization ≡ old.transport_organization
  pub static : same_id new.static_submission old.static_submission ≡ true
  pub protocol : new.protocol ≡ old.protocol
  pub endpoints : map fixed_part new.endpoints ≡ map fixed_part old.endpoints

module _ {A B : Type 0} where
  >>=-eq-passed :
      (m : Checked A) (f : A → Checked B) {b : B}
      → (m >>= f) ≡ passed b
      → (a : A) × (m ≡ passed a) × (f a ≡ passed b)
  >>=-eq-passed (passed a) f h = (a, refl, h)
  >>=-eq-passed (fault e) f h = cc

not_faulty : (b : Bool) (e : Fault) → fault_if b e ≡ passed tt → b ≡ false
not_faulty true e h = cc
not_faulty false e h = refl

kept_text : (new : Option Text) (old : Text) → changes_text new old ≡ false → or_old new old ≡ old
kept_text none old h = refl
kept_text (some new) old h = sym (text_eq_sound old new (ground arith))

kept_id : (new : Option ℕ) (old : ℕ) → changes_id new old ≡ false → or_old new old ≡ old
kept_id none old h = refl
kept_id (some new) old h = ground arith

same_id_refl : (s : Option StaticRef) → same_id s s ≡ true
same_id_refl none = refl
same_id_refl (some s) = ground arith

kept_static :
    (new : Option (Option StaticRef)) (old : Option StaticRef)
    → changes_static new old ≡ false
    → same_id (or_old new old) old ≡ true
kept_static none old h = same_id_refl old
kept_static (some new) old h = ground arith

same_protocol_sound : (p q : Protocol) → same_protocol p q ≡ true → p ≡ q
same_protocol_sound gtfs_rt gtfs_rt h = refl
same_protocol_sound siri siri h = refl
same_protocol_sound gbfs gbfs h = refl
same_protocol_sound gtfs_rt siri h = cc
same_protocol_sound gtfs_rt gbfs h = cc
same_protocol_sound siri gtfs_rt h = cc
same_protocol_sound siri gbfs h = cc
same_protocol_sound gbfs gtfs_rt h = cc
same_protocol_sound gbfs siri h = cc

kept_protocol :
    (new : Option Protocol) (old : Protocol)
    → changes_protocol new old ≡ false
    → or_old new old ≡ old
kept_protocol none old h = refl
kept_protocol (some new) old h = same_protocol_sound new old (ground arith)

save_interval_fixed :
    (t : EndpointType) (n : ℕ) (rows : List EndpointRt)
    → map fixed_part (save_interval t n rows) ≡ map fixed_part rows
save_interval_fixed t n [] = refl
save_interval_fixed t n (e ∷ es) = elim (Bool-cases (rank e.endpoint_type == rank t)) [
  | inl same ↦ rw same (ap (λ l. fixed_part e ∷ l) (save_interval_fixed t n es))
  | inr other ↦ rw other (ap (λ l. fixed_part e ∷ l) (save_interval_fixed t n es))
]

module _ (fits : EndpointRt → Bool) where
  new_interval_fixed :
      (protocol : Protocol) (n : ℕ) (row : EndpointRt) (rows : List EndpointRt)
      {saved : List EndpointRt}
      → new_interval fits protocol n row rows ≡ passed saved
      → map fixed_part saved ≡ map fixed_part rows
  new_interval_fixed protocol n row rows h = elim (Bool-cases (row.interval == n)) [
    | inl same ↦ ground arith
    | inr other ↦ elim (Bool-cases (is_clean fits protocol (record row { interval = n }))) [
      | inl clean ↦ ground (arith, save_interval_fixed row.endpoint_type n rows)
      | inr faulty ↦ ground arith
    ]
  ]

  interval_of_fixed :
      (protocol : Protocol) (n : Option ℕ) (row : Option EndpointRt) (rows : List EndpointRt)
      {saved : List EndpointRt}
      → interval_of fits protocol n row rows ≡ passed saved
      → map fixed_part saved ≡ map fixed_part rows
  interval_of_fixed protocol n none rows h = cc
  interval_of_fixed protocol none (some row) rows h = cc
  interval_of_fixed protocol (some n) (some row) rows h = new_interval_fixed protocol n row rows h

  save_intervals_fixed :
      (protocol : Protocol) (eps : List EndpointData) (rows : List EndpointRt)
      {saved : List EndpointRt}
      → save_intervals fits protocol eps rows ≡ passed saved
      → map fixed_part saved ≡ map fixed_part rows
  unfolding save_intervals
  save_intervals_fixed protocol [] rows h = ground arith
  save_intervals_fixed protocol (ep ∷ eps) rows h =
      let (one, first, rest) =
        >>=-eq-passed (interval_of fits protocol ep.interval (by_type ep.endpoint_type rows) rows)
          (save_intervals fits protocol eps) h in
      save_intervals_fixed protocol eps one rest
      ∙ interval_of_fixed protocol ep.interval (by_type ep.endpoint_type rows) rows first

  saved_endpoints :
      (eps : Option (List EndpointData)) (inst : RealtimeInstance) {new : RealtimeInstance}
      → save_endpoints fits true eps inst ≡ passed new
      → (rows : List EndpointRt) × (new ≡ record inst { endpoints = rows })
        × (map fixed_part rows ≡ map fixed_part inst.endpoints)
  saved_endpoints none inst h = (inst.endpoints, cc, refl)
  saved_endpoints (some eps) inst h =
      let (rows, saved, e) =
        >>=-eq-passed (save_intervals fits inst.protocol eps inst.endpoints)
          (with_endpoints fits inst) h in
      (rows, cc, save_intervals_fixed inst.protocol eps inst.endpoints saved)

-- What the first checks of a restricted edit let through.
record IsUnchanged (d : RealtimeData) (inst : RealtimeInstance) : Type 0 where
  name : changes_text d.name inst.name ≡ false
  organization : changes_id d.transport_organization inst.transport_organization ≡ false
  static : changes_static d.static_submission inst.static_submission ≡ false
  protocol : changes_protocol d.protocol inst.protocol ≡ false

check_restricted-IsUnchanged :
    (d : RealtimeData) (inst : RealtimeInstance)
    → check_restricted d inst ≡ passed tt
    → IsUnchanged d inst
unfolding check_restricted
check_restricted-IsUnchanged d inst h =
    let (_, name, a) = >>=-eq-passed (fault_if (changes_text d.name inst.name) name_changed) _ h in
    let (_, organization, b) =
      >>=-eq-passed
        (fault_if (changes_id d.transport_organization inst.transport_organization)
          organization_changed)
        _ a in
    let (_, static, protocol) =
      >>=-eq-passed
        (fault_if (changes_static d.static_submission inst.static_submission) static_changed) _ b in
    record {
      name = not_faulty _ name_changed name;
      organization = not_faulty _ organization_changed organization;
      static = not_faulty _ static_changed static;
      protocol = not_faulty _ protocol_changed protocol;
    }

restricted-IsSameBut :
    (fits : EndpointRt → Bool) (completed : ℕ → Bool) (d : RealtimeData) (inst : RealtimeInstance)
    {new : RealtimeInstance}
    → update_content fits completed true d inst ≡ passed new
    → IsSameBut inst new
unfolding update_content validate_update
restricted-IsSameBut fits completed d inst h =
    let (_, valid, saved) =
      >>=-eq-passed (validate_update completed true d inst)
        (λ _. save_endpoints fits true d.endpoints (with_sent_data d inst)) h in
    let (_, first, _) = >>=-eq-passed (check_restricted d inst) _ valid in
    let unchanged = check_restricted-IsUnchanged d inst first in
    let (rows, e, fixed) = saved_endpoints fits d.endpoints (with_sent_data d inst) saved in
    rw e (record {
      name = kept_text d.name inst.name unchanged.name;
      organization =
          kept_id d.transport_organization inst.transport_organization unchanged.organization;
      static = kept_static d.static_submission inst.static_submission unchanged.static;
      protocol = kept_protocol d.protocol inst.protocol unchanged.protocol;
      endpoints = fixed;
    })

late_edit :
    (u : User) (s : Submission)
    → has_admin_role u ≡ false
    → s.is_rejected ≡ false
    → 2 ≤ s.current_stage
    → not (can_edit_realtime_submission_content u s) ≡ true
unfolding can_edit_realtime_submission_content
late_edit u s user open_ late = ground arith

-- An edit that goes through, by a user without the Admin group, of a submission that is not rejected
-- and past stage 1, leaves the name, the organisation, the linked static submission, the protocol, and
-- of each endpoint all but the interval, its secret included.
pub update_content-IsSameBut :
    (fits : EndpointRt → Bool) (completed : ℕ → Bool) (u : User) (s : Submission) (d : RealtimeData)
    (inst : RealtimeInstance) {new : RealtimeInstance}
    → has_admin_role u ≡ false
    → s.is_rejected ≡ false
    → 2 ≤ s.current_stage
    → update_by fits completed u s d inst ≡ passed new
    → IsSameBut inst new
unfolding update_by
update_content-IsSameBut fits completed u s d inst user open_ late h =
    restricted-IsSameBut fits completed d inst (rw (late_edit u s user open_ late) at h)
