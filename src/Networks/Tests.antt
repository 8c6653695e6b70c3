-- ===== src/Networks/Tests.antt =====
-- Networks and amounts at concrete values.
use settlementos.Base.{◌≡◌, refl, false, some}
use settlementos.Base.Texts.{codes}
use settlementos.Decimal.{to_text}
use settlementos.Networks.Registry.{from_base_units, strip_zeros, is_superseded_by_regenesis}

prints_base_units : from_base_units 1_050_000 6 ≡ codes "1.05"
unfolding from_base_units strip_zeros to_text
prints_base_units = refl

later_is_live : is_superseded_by_regenesis "fortel2-sepolia" (some 1_787_433_288_000) ≡ false
unfolding is_superseded_by_regenesis
later_is_live = refl
