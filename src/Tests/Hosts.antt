-- ===== src/Tests/Hosts.antt =====
-- A host whose foreign functions do nothing.
use mylamina.Base.{[], none, some, ◌==◌}
use mylamina.Value.{Libc}
use mylamina.Vm.State.{Host}

abbrev pub plain_libc : Libc
plain_libc = record {
  f64_pow = λ x y. x;
  f64_eq = λ x y. x == y;
  int_text = λ n. [];
  f64_text = λ x. [];
  hash_int = λ n. n;
  hash_u64 = λ n. n;
  hash_f64 = λ n. n;
  hash_ptr = λ n. n;
  hash_bool = λ b. 0;
  hash_text = λ t. 0;
}

abbrev pub plain_host : Host
plain_host = record {
  libc = plain_libc;
  fgets = λ s p. (p, s.text_at);
  load_library = λ s p. none;
  set_function = λ s. some s;
  call_function = λ s. some s;
}
