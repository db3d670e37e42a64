-- ===== src/Limits/Sample.antt =====
-- A small Redis server: its data are the values at the keys.
use yappa_core.Common.{
  string_eq, refl, String, ℕ, ℤ, pos, List, [], length, unwrap_or, if◌then◌else◌, ◌==◌,
}
use yappa_core.Limits.Server.{
  Redis, Value, absent, number, set, as_number, as_set, succ, pred, add, drop_all, of_list,
}

abbrev pub Data : Type 0
Data = String → Value

abbrev put : Data → String → Value → Data
put s k v j = if k == j then v else s j

-- A value of the other kind counts as absent here.
abbrev numbered : Data → String → ℤ
numbered s k = unwrap_or (as_number (s k)) (pos 0)

abbrev listed : Data → String → List String
listed s k = unwrap_or (as_set (s k)) []

abbrev pub server : Redis
server = record {
  Store = Data;
  value = λ s. s;
  incr = λ s k. (succ (numbered s k), put s k (number (succ (numbered s k))));
  decr = λ s k. (pred (numbered s k), put s k (number (pred (numbered s k))));
  scard = λ s k. length (listed s k);
  sadd = λ s k x. put s k (set (add x (listed s k)));
  srem = λ s k x. put s k (of_list (drop_all x (listed s k)));
  del = λ s k. put s k absent;
  incr_lem = λ s k z e h. rw e (refl, λ j. refl);
  decr_lem = λ s k z e h. rw e (refl, λ j. refl);
  scard_lem = λ s k xs e. rw e refl;
  sadd_lem = λ s k x xs e j. rw e refl;
  srem_lem = λ s k x xs e j. rw e refl;
  del_lem = λ s k j. refl;
}

abbrev pub nothing : Data
nothing k = absent

abbrev pub none_open : String → ℕ
none_open u = 0
