-- ===== src/Access/Tenants.antt =====
-- Who a key identifies, and who may drive a payment.
use settlementos.Base.{
  ◌≡◌, refl, ap, ◌∙◌, sym, subst, ◌↔◌, ◌⊎◌, true, false, List, if◌then◌else◌, Bool-cases,
  Option-cases, inl, inr, Option, none, some,
}
use settlementos.Decimal.{Text}
use settlementos.Base.Texts.{String, eq_iff}
use settlementos.Access.Keys.{
  Headers, Principal, Platform, ApiKey, Role, operator, reviewer, entity, authenticate,
  principal_of, principal_for_key, find_key, role_of, scoped, tenant, raw_key, or_null,
}
use settlementos.Access.Guard.{
  Parties, authorize_payment_write, refused_write, acts_as, error_response, not_found,
}

some_inj {ℓ} : {A : Type ℓ} {a b : A} → some a ≡ some b → a ≡ b
some_inj e = cc

-- Who a key identifies: a tenant with a tenant's id, or a platform role.
abbrev pub Scoped : Principal → Type 0
Scoped p = (p.role ≡ entity) → (id : String) × (p.entity_id ≡ some id)

scoped-Scoped :
    (r : Role) (e : Option String) → scoped r e ≡ true → r ≡ entity → (id : String) × (e ≡ some id)
scoped-Scoped operator e h k = cc
scoped-Scoped reviewer e h k = cc
scoped-Scoped entity none h k = cc
scoped-Scoped entity (some id) h k = (id, refl)

principal_of-Scoped : (k : ApiKey) (p : Principal) → principal_of k ≡ some p → Scoped p
unfolding principal_of
principal_of-Scoped k p h = elim (Option-cases (role_of k.role)) [
  | inl e ↦ cc (rw (principal_of, e) at h)
  | inr (r, e) ↦ granted r (rw (principal_of, e) at h)
]
  where
    named : Role → Principal
    named r = record { key_id = k.id; role = r; entity_id = tenant k.entity_id; label = k.label }

    granted :
        (r : Role)
        → (if scoped r (tenant k.entity_id) then some (named r) else none) ≡ some p
        → Scoped p
    granted r g = elim (Bool-cases (scoped r (tenant k.entity_id))) [
      | inl e ↦
          let same : named r ≡ p = some_inj (rw e at g) in
          subst Scoped same (scoped-Scoped r (tenant k.entity_id) e)
      | inr e ↦ cc (rw e at g)
    ]

principal_for_key-Scoped :
    (platform : Platform) (keys : List ApiKey) (raw : Text) (p : Principal)
    → principal_for_key platform keys raw ≡ some p
    → Scoped p
unfolding principal_for_key
principal_for_key-Scoped platform keys raw p h =
    elim (Option-cases (find_key (platform.digest raw) keys)) [
      | inl e ↦ cc (rw (principal_for_key, e) at h)
      | inr (k, e) ↦ principal_of-Scoped k p (rw (principal_for_key, e) at h)
    ]

-- Whoever is authenticated as a tenant acts for one tenant.
pub authenticate-Scoped :
    (platform : Platform) (keys : List ApiKey) (headers : Headers) (p : Principal)
    → authenticate platform keys headers ≡ some p
    → Scoped p
unfolding authenticate
authenticate-Scoped platform keys headers p h =
    elim (Option-cases (or_null (raw_key platform headers))) [
      | inl e ↦ cc (rw (authenticate, e) at h)
      | inr (raw, e) ↦ principal_for_key-Scoped platform keys raw p (rw (authenticate, e) at h)
    ]

acts_as_iff : (e : Option String) (id : String) → (acts_as e id ≡ true) ↔ (e ≡ some id)
acts_as_iff none id = (λ h. cc, λ h. cc)
acts_as_iff (some x) id = (λ h. ap some ((eq_iff x id).0 h), λ h. (eq_iff x id).1 (some_inj h))

may_drive :
    (r : Role) (e : Option String) (payment : Parties)
    → (refused_write r e payment ≡ none)
      ↔ ((r ≡ operator) ⊎ ((r ≡ entity) × (e ≡ some payment.sender_id)))
may_drive operator e payment = (λ h. inl refl, λ h. refl)
may_drive reviewer e payment = (λ h. cc, λ h. elim h [ inl x ↦ cc | inr x ↦ cc (x.0) ])
may_drive entity e payment = elim (Bool-cases (acts_as e payment.sender_id)) [
  | inl h ↦ rw h (λ x. inr (refl, (acts_as_iff e payment.sender_id).0 h), λ x. refl)
  | inr h ↦ (
    λ x. elim (Bool-cases (acts_as e payment.recipient_id)) [
      | inl k ↦ cc (rw (h, k) at x)
      | inr k ↦ cc (rw (h, k) at x)
    ],
    λ x. elim x [ inl y ↦ cc | inr y ↦ cc (sym h ∙ (acts_as_iff e payment.sender_id).1 y.1) ],
  )
]

outsider :
    (r : Role) (e : Option String) (payment : Parties)
    → r ≡ entity
    → acts_as e payment.sender_id ≡ false
    → acts_as e payment.recipient_id ≡ false
    → refused_write r e payment ≡ some (error_response not_found)
outsider operator e payment k h g = cc
outsider reviewer e payment k h g = cc
outsider entity e payment k h g = rw (h, g) refl

-- A caller that authenticates may drive a payment exactly if it is the operator or acts for the
-- payment's sender; a tenant always acts for one tenant, and one that is no party to the payment gets
-- the answer that a payment that does not exist gets.
pub write_needs_sender :
    (platform : Platform) (keys : List ApiKey) (headers : Headers) (p : Principal)
    (payment : Parties)
    → authenticate platform keys headers ≡ some p
    → ((authorize_payment_write p payment ≡ none)
        ↔ ((p.role ≡ operator) ⊎ ((p.role ≡ entity) × (p.entity_id ≡ some payment.sender_id))))
      × Scoped p
      × (p.role ≡ entity
          → acts_as p.entity_id payment.sender_id ≡ false
          → acts_as p.entity_id payment.recipient_id ≡ false
          → authorize_payment_write p payment ≡ some (error_response not_found))
unfolding authorize_payment_write
write_needs_sender platform keys headers p payment h = (
  may_drive p.role p.entity_id payment,
  authenticate-Scoped platform keys headers p h,
  outsider p.role p.entity_id payment,
)
