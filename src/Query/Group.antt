-- ===== src/Query/Group.antt =====
-- The workgroup that `QueryContext` of go/connection.go runs a query under.
use athenadriver.Base.{
  Bool, true, false, List, [], ◌∷◌, Option, none, some, Bytes, bytes_eq, ◌≡◌, refl, ◌↔◌, sym, ap,
  ◌∙◌, Bool-cases, inl, inr, arith,
}
use mathlib.Core.Path.{subst}
use athenadriver.Config.Flags.{is_wg_remote_creation_allowed}
use athenadriver.Config.{Config, is_empty}
use athenadriver.Errors.{Error, Outcome, returned, failed, panics, unfinished}
use athenadriver.Query.{
  Client, Call, get_group, create_group, resolve_group, not_found, default_wg_name,
}
use athenadriver.Workgroup.{Workgroup, create_wg_remotely}

-- A workgroup that a query can run under, and the calls that find this out.
pub data IsUsable (c : Config) (client : Client) (wg : Workgroup) : Bytes → List Call → Type 0 where
  unnamed : is_empty wg.name ≡ true → IsUsable c client wg default_wg_name []
  primary :
      is_empty wg.name ≡ false
      → bytes_eq wg.name default_wg_name ≡ true
      → IsUsable c client wg wg.name []
  enabled :
      is_empty wg.name ≡ false
      → bytes_eq wg.name default_wg_name ≡ false
      → client.get_work_group wg.name ≡ returned true
      → IsUsable c client wg wg.name (get_group wg.name ∷ [])
  created :
      (e : Error)
      → is_empty wg.name ≡ false
      → bytes_eq wg.name default_wg_name ≡ false
      → client.get_work_group wg.name ≡ failed e
      → not_found e ≡ true
      → is_wg_remote_creation_allowed c ≡ true
      → create_wg_remotely client.create_work_group wg ≡ none
      → IsUsable c client wg wg.name (get_group wg.name ∷ create_group wg.name ∷ [])

pub usable_resolved :
    (c : Config) (client : Client) (wg : Workgroup) (name : Bytes) (calls : List Call)
    → IsUsable c client wg name calls
    → resolve_group c client wg ≡ (calls, returned name)
unfolding resolve_group athenadriver.Workgroup.get_wg
usable_resolved c client wg _ _ (unnamed h) = rw h refl
usable_resolved c client wg _ _ (primary h k) = rw (h, k) refl
usable_resolved c client wg _ _ (enabled h k g) = rw (h, k, g) refl
usable_resolved c client wg _ _ (created e h k g n a m) = rw (h, k, g) (rw (n, a) (rw m refl))

module _ (c : Config) (client : Client) (wg : Workgroup) where
  same_result :
      (name other : Bytes) (calls others : List Call)
      → IsUsable c client wg name calls
      → resolve_group c client wg ≡ (others, returned other)
      → IsUsable c client wg other others
  same_result name other calls others u h =
      let e = sym (usable_resolved c client wg name calls u) ∙ h in
      let named : name ≡ other = cc in
      subst (λ n. IsUsable c client wg n others) named
        (subst (λ cs. IsUsable c client wg name cs) (ap (λ r. r.0) e) u)

  created_answer :
      (x : Error) (o : Option Error) (name : Bytes) (calls : List Call)
      → client.get_work_group wg.name ≡ failed x
      → is_empty wg.name ≡ false
      → bytes_eq wg.name default_wg_name ≡ false
      → not_found x ≡ true
      → is_wg_remote_creation_allowed c ≡ true
      → create_wg_remotely client.create_work_group wg ≡ o
      → resolve_group c client wg ≡ (calls, returned name)
      → IsUsable c client wg name calls
  unfolding resolve_group athenadriver.Workgroup.get_wg
  created_answer x none name calls g e f n a m h =
      same_result wg.name name (get_group wg.name ∷ create_group wg.name ∷ []) calls
        (created x e f g n a m) h
  created_answer x (some y) name calls g e f n a m h = ground arith

  answered :
      (o : Outcome Bool) (name : Bytes) (calls : List Call)
      → client.get_work_group wg.name ≡ o
      → is_empty wg.name ≡ false
      → bytes_eq wg.name default_wg_name ≡ false
      → resolve_group c client wg ≡ (calls, returned name)
      → IsUsable c client wg name calls
  unfolding resolve_group athenadriver.Workgroup.get_wg
  answered (returned true) name calls g e f h =
      same_result wg.name name (get_group wg.name ∷ []) calls (enabled e f g) h
  answered (returned false) name calls g e f h = ground arith
  answered (failed x) name calls g e f h = elim (Bool-cases (not_found x)) [
    | inl n ↦ elim (Bool-cases (is_wg_remote_creation_allowed c)) [
      | inl a ↦
          created_answer x (create_wg_remotely client.create_work_group wg) name calls g e f n a
            refl h
      | inr a ↦ ground arith
    ]
    | inr n ↦ ground arith
  ]
  answered panics name calls g e f h = ground arith
  answered unfinished name calls g e f h = ground arith

  resolved-IsUsable :
      (name : Bytes) (calls : List Call)
      → resolve_group c client wg ≡ (calls, returned name)
      → IsUsable c client wg name calls
  resolved-IsUsable name calls h = elim (Bool-cases (is_empty wg.name)) [
    | inl e ↦ same_result default_wg_name name [] calls (unnamed e) h
    | inr e ↦ elim (Bool-cases (bytes_eq wg.name default_wg_name)) [
      | inl f ↦ same_result wg.name name [] calls (primary e f) h
      | inr f ↦ answered (client.get_work_group wg.name) name calls refl e f h
    ]
  ]

  -- A query of `QueryContext` is run under a workgroup exactly if it is usable, and the calls made
  -- for that are exactly these: no call, for the default workgroup, which an empty name stands for;
  -- `GetWorkGroup`, if it finds an enabled workgroup of the name; and `CreateWorkGroup` behind a
  -- `GetWorkGroup` that did not find one, if remote creation is allowed and succeeds.
  pub resolve_group_iff :
      (name : Bytes) (calls : List Call)
      → (resolve_group c client wg ≡ (calls, returned name)) ↔ IsUsable c client wg name calls
  resolve_group_iff name calls =
      (resolved-IsUsable name calls, usable_resolved c client wg name calls)
