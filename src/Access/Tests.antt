-- ===== src/Access/Tests.antt =====
-- Requests on a small deployment, and the theorems there.
use settlementos.Base.{◌≡◌, refl, ◌↔◌, ◌⊎◌, false, [], ◌∷◌, ◌++◌, none, some, arith}
use settlementos.Base.Texts.{codes}
use settlementos.Decimal.{split, value}
use settlementos.Access.Keys.{
  operator, entity, ApiKey, Principal, Headers, Platform, authenticate, principal_for_key,
  principal_of, role_of, find_key, key_from_cookie, cookie_value, at_equals, trim, trim_start,
  trim_end,
}
use settlementos.Access.Guard.{Parties, authorize_payment_write, acts_as, error_response, not_found}
use settlementos.Access.Intake.{
  Environment, forwarded, non_empty, get_elem?, trusted_proxy_hops, client_address,
  read_capped_body,
}
use settlementos.Access.Address.{forwarding, forgery_ignored}
use settlementos.Access.Caps.{read_capped_body_iff}
use settlementos.Access.Tenants.{Scoped, write_needs_sender}

abbrev plain : Platform
plain = record { digest = λ t. t; decode = λ t. some t }

abbrev tenant_key : ApiKey
tenant_key = record {
  id = "k1";
  key_hash = codes "sos_1";
  role = "ENTITY";
  entity_id = some "acme";
  label = "Acme";
}

abbrev by_cookie : Headers
by_cookie = record {
  api_key = none;
  cookie = some (codes "theme=dark; sos_key=sos_1");
  forwarded_for = none;
  real_ip = none;
  content_length = some (codes "5");
}

abbrev acme : Principal
acme = record { key_id = "k1"; role = entity; entity_id = some "acme"; label = "Acme" }

authenticates : authenticate plain (tenant_key ∷ []) by_cookie ≡ some acme
unfolding authenticate key_from_cookie cookie_value at_equals trim trim_start trim_end split
    principal_for_key find_key principal_of role_of
authenticates = refl

abbrev one_hop : Environment
one_hop = record { writes_per_minute = none; trusted_proxy_hops = some (codes "1") }

-- The client wrote the first two entries itself.
reads_our_entry :
    client_address one_hop (forwarding by_cookie (codes "6.6.6.6, 7.7.7.7,1.2.3.4"))
    ≡ codes "1.2.3.4"
unfolding client_address forwarded non_empty split trim trim_start trim_end get_elem?
    trusted_proxy_hops value
reads_our_entry = refl

forgery_ignored_example :
    client_address one_hop (forwarding by_cookie (codes "6.6.6.6" ++ b',' ∷ codes "1.2.3.4"))
    ≡ client_address one_hop (forwarding by_cookie (codes "1.2.3.4"))
unfolding trusted_proxy_hops value forwarded non_empty split trim trim_start trim_end
forgery_ignored_example =
    forgery_ignored one_hop by_cookie (codes "6.6.6.6") (codes "1.2.3.4") (omega arith)
      (omega arith)

read_capped_body_iff_example :
    read_capped_body by_cookie 5 (some ((1 ∷ 2 ∷ 3 ∷ []) ∷ (4 ∷ 5 ∷ []) ∷ []))
    ≡ some (1 ∷ 2 ∷ 3 ∷ 4 ∷ 5 ∷ [])
unfolding value
read_capped_body_iff_example =
    read_capped_body_iff by_cookie 5 ((1 ∷ 2 ∷ 3 ∷ []) ∷ (4 ∷ 5 ∷ []) ∷ []) refl

abbrev theirs : Parties
theirs = record { sender_id = "acme"; recipient_id = "globex" }

write_needs_sender_example :
    ((authorize_payment_write acme theirs ≡ none)
      ↔ ((acme.role ≡ operator) ⊎ ((acme.role ≡ entity) × (acme.entity_id ≡ some "acme"))))
    × Scoped acme
    × (acme.role ≡ entity
        → acts_as acme.entity_id "acme" ≡ false
        → acts_as acme.entity_id "globex" ≡ false
        → authorize_payment_write acme theirs ≡ some (error_response not_found))
write_needs_sender_example =
    write_needs_sender plain (tenant_key ∷ []) by_cookie acme theirs authenticates
