-- ===== src/Brightness/Order.antt =====
-- The ordering key of adoptState is a strict total order.
use showmesh_fpp_plugin.Base.{
  eq_bytes_iff, lt_bytes_irrefl, lt_bytes_trans, lt_bytes_connex, eq_of_parts, true, false, ◌≡◌,
  arith,
}
use showmesh_fpp_plugin.Brightness.Adopt.{OrderingKey, newer}

pub newer_irrefl : (k : OrderingKey) → newer k k ≡ false
unfolding newer
newer_irrefl k = ground (arith, eq_bytes_iff k.id k.id, lt_bytes_irrefl k.hash)

pub newer_connex : (a b : OrderingKey) → newer a b ≡ false → newer b a ≡ false → a ≡ b
unfolding newer
newer_connex a b h k = ground (
  arith,
  eq_of_parts a.changed_at b.changed_at,
  eq_bytes_iff a.id b.id,
  eq_bytes_iff b.id a.id,
  lt_bytes_connex a.id b.id,
  lt_bytes_connex a.hash b.hash,
)

pub newer_trans : (a b c : OrderingKey) → newer a b ≡ true → newer b c ≡ true → newer a c ≡ true
unfolding newer
newer_trans a b c h k = ground (
  arith,
  eq_bytes_iff a.id b.id,
  eq_bytes_iff b.id c.id,
  eq_bytes_iff a.id c.id,
  lt_bytes_irrefl a.id,
  lt_bytes_trans c.id b.id a.id,
  lt_bytes_trans c.hash b.hash a.hash,
)

pub newer_asymm : (a b : OrderingKey) → newer a b ≡ true → newer b a ≡ false
newer_asymm a b h = ground (arith, newer_trans a b a h, newer_irrefl a)

-- "Not newer" is transitive, since the order is total.
pub not_newer_trans :
    (a b c : OrderingKey) → newer a b ≡ false → newer b c ≡ false → newer a c ≡ false
not_newer_trans a b c h k = ground (arith, newer_connex a b h, newer_trans b a c, newer_trans a c b)
