-- ===== src/Rpc/UpdateTests.antt =====
-- Runs of /rpc/append, /rpc/prepend, /rpc/insert, /rpc/replace, /rpc/incr, /rpc/decr and /rpc/cas of
-- src/rpc.c, with their theorems at concrete requests.
use reveldb.Prelude.{
  ℕ, ◌≡◌, ◌≢◌, refl, ap, ◌&&◌, Option, none, some, [], ◌∷◌, ◌++◌, Bytes, lit, bytes_eq, strcmp,
  length, take, drop, ◌==◌, if◌then◌else◌, arith,
}
use reveldb.Prelude.Int.{pos, ◌+ℤ◌}
use reveldb.Registry.{search}
use reveldb.Registry.Order.{lookup}
use reveldb.Utility.Decimal.{print_ℤ, decimal, digits}
use reveldb.Utility.RoundTrip.{safe_strtoul-decimal}
use reveldb.Rpc.Env.{Request}
use reveldb.Rpc.Reply.{sent, res_ok, res_serverr, res_notfound, kv_response}
use reveldb.Rpc.Checks.{pass, proto_and_method_sanity_check, query_quiet_check, query_database}
use reveldb.Rpc.Contents.{value_at}
use reveldb.Rpc.Store.{set_cb}
use reveldb.Rpc.Update.{append_cb, insert_cb, position_check}
use reveldb.Rpc.Counter.{incr_cb}
use reveldb.Rpc.Swap.{cas_cb}
use reveldb.Rpc.SetLaws.{status}
use reveldb.Rpc.Updated.{Updated}
use reveldb.Rpc.UpdateLaws.{Edits, append_cb_lem, insert_cb_lem}
use reveldb.Rpc.CounterLaws.{Counts, incr_cb_lem}
use reveldb.Rpc.SwapLaws.{Swaps, cas_cb-swapped, cas_cb-refused}
use reveldb.Rpc.Stale.{set_cb-append_cb}
use reveldb.Rpc.Sample.{env, contract, server, request, arg}

abbrev edit : Request
edit = request (arg "key" "w" ∷ arg "value" "de" ∷ arg "pos" "1" ∷ [])

edit-Edits : Edits env edit contract server 1 (lit "w") (lit "de") (lit "abc")
unfolding lit bytes_eq strcmp search lookup query_database proto_and_method_sanity_check
edit-Edits = record {
  asks = record { checked = refl; key_arg = refl; database = refl };
  gives = refl;
  readable = record { present_time = refl; no_error = refl };
  found = refl;
  c_string = (omega arith, (omega arith, tt));
  small_old = omega arith;
  small_val = omega arith;
}

append_cb_lem_example :
    Updated env edit contract server 1
      (lit "w")
      (lit "Append value done.")
      (lit "abc" ++ lit "de")
      (append_cb env edit server)
unfolding lit
append_cb_lem_example =
    append_cb_lem env edit contract server 1 (lit "w") (lit "de") (lit "abc") edit-Edits
      (record { clean = refl; written = refl })

position_one : position_check env edit (decimal 1) ≡ pass 1
unfolding position_check
position_one = rw (safe_strtoul-decimal 1 (omega arith), position_check)

gives_one : env.kv_find edit.query (lit "pos") ≡ some (decimal 1)
unfolding lit bytes_eq decimal digits
gives_one = refl

insert_cb_lem_example :
    Updated env edit contract server 1
      (lit "w")
      (lit "Insert value done.")
      (take 1 (lit "abc") ++ lit "de" ++ drop 1 (lit "abc"))
      (insert_cb env edit server)
unfolding lit
insert_cb_lem_example =
    insert_cb_lem env edit contract server 1 (lit "w") (lit "de") (lit "abc") edit-Edits (decimal 1)
      1 gives_one position_one (omega arith) (record { clean = refl; written = refl })

-- An argument that makes the value too long for the store
abbrev long : Request
long = request (arg "key" "w" ∷ arg "value" "defghi" ∷ [])

long-Edits : Edits env long contract server 1 (lit "w") (lit "defghi") (lit "abc")
unfolding lit bytes_eq strcmp search lookup query_database proto_and_method_sanity_check
long-Edits = record {
  asks = record { checked = refl; key_arg = refl; database = refl };
  gives = refl;
  readable = record { present_time = refl; no_error = refl };
  found = refl;
  c_string =
      (omega arith, (omega arith, (omega arith, (omega arith, (omega arith, (omega arith, tt))))));
  small_old = omega arith;
  small_val = omega arith;
}

set_cb-append_cb_example : status (set_cb env edit (append_cb env long server).0).1 ≡ res_serverr
unfolding lit
set_cb-append_cb_example =
    set_cb-append_cb env long edit contract server 1 (lit "w") (lit "defghi") (lit "abc") long-Edits
      (lit "IO error") (lit "w") (lit "de") refl edit-Edits.asks edit-Edits.gives

abbrev count_n : Request
count_n = request (arg "key" "n" ∷ arg "step" "1" ∷ [])

count_n-Counts : Counts env count_n contract server 1 (lit "n") (pos 41) (pos 1)
unfolding lit bytes_eq strcmp search lookup query_database proto_and_method_sanity_check print_ℤ
    decimal digits
count_n-Counts = record {
  asks = record { checked = refl; key_arg = refl; database = refl };
  gives = refl;
  step_range = omega arith;
  readable = record { present_time = refl; no_error = refl };
  found = refl;
  value_range = omega arith;
}

incr_cb_lem_example :
    Updated env count_n contract server 1
      (lit "n")
      (lit "Incr value done.")
      (print_ℤ (pos 41 +ℤ pos 1))
      (incr_cb env count_n server)
unfolding ◌+ℤ◌ print_ℤ decimal digits
incr_cb_lem_example =
    incr_cb_lem env count_n contract server 1 (lit "n") (pos 41) (pos 1) count_n-Counts
      (omega arith) (record { clean = refl; written = refl })

abbrev swap : Request
swap = request (arg "key" "w" ∷ arg "oval" "abc" ∷ arg "nval" "xy" ∷ [])

swap-Swaps : Swaps env swap contract server 1 (lit "w") (lit "abc") (lit "xy")
unfolding lit bytes_eq strcmp search query_database proto_and_method_sanity_check
swap-Swaps = record {
  asks = record { checked = refl; key_arg = refl; database = refl };
  gives_old = refl;
  gives_new = refl;
  c_string = (omega arith, (omega arith, (omega arith, tt)));
  readable = record { present_time = refl; no_error = refl };
}

found_abc : value_at contract server 1 (lit "w") ≡ some (lit "abc")
unfolding lit bytes_eq lookup
found_abc = refl

cas_cb-swapped_example :
    ((cas_cb env swap server).1
      ≡ sent res_ok (kv_response env (query_quiet_check env swap) (lit "w") (lit "abc")))
    × ((q : ℕ) (j : Bytes)
        → value_at contract (cas_cb env swap server).0 q j ≡ (
            if (q == 1) && bytes_eq (lit "w") j
            then some (lit "xy")
            else value_at contract server q j))
unfolding lit
cas_cb-swapped_example =
    cas_cb-swapped env swap contract server 1 (lit "w") (lit "abc") (lit "xy") swap-Swaps found_abc
      (record { clean = refl; written = refl })

abbrev other : Request
other = request (arg "key" "n" ∷ arg "oval" "400" ∷ arg "nval" "xy" ∷ [])

other-Swaps : Swaps env other contract server 1 (lit "n") (lit "400") (lit "xy")
unfolding lit bytes_eq strcmp search query_database proto_and_method_sanity_check
other-Swaps = record {
  asks = record { checked = refl; key_arg = refl; database = refl };
  gives_old = refl;
  gives_new = refl;
  c_string = (omega arith, (omega arith, (omega arith, tt)));
  readable = record { present_time = refl; no_error = refl };
}

abbrev text_length : Option Bytes → ℕ
text_length none = 0
text_length (some t) = length t

not_found : value_at contract server 1 (lit "n") ≢ some (lit "400")
unfolding lit bytes_eq lookup
not_found h = omega (arith, ap text_length h)

cas_cb-refused_example :
    (status (cas_cb env other server).1 ≡ res_notfound)
    × ((q : ℕ) (j : Bytes)
        → value_at contract (cas_cb env other server).0 q j ≡ value_at contract server q j)
cas_cb-refused_example =
    cas_cb-refused env other contract server 1 (lit "n") (lit "400") (lit "xy") other-Swaps
      not_found
