-- ===== src/Cache/Calls/Run.antt =====
-- src/core/cache.c, any sequence of calls: none of them faults, and no value is lost or freed twice.
use squashfs_fuse.Cache.Calls.Step.{Returns, get_returns, remove_returns, clear_returns}
use squashfs_fuse.Cache.Calls.Put.{put_returns}
use squashfs_fuse.Cache.Calls.Ownership.{copies-append}
use squashfs_fuse.Cache.Calls.{
  Call, call_get, call_put, call_remove, call_clear, call, run, IsSound, IsCache,
}
use squashfs_fuse.Cache.Heap.{Cell}
use squashfs_fuse.Cache.Ops.{Allocator}
use squashfs_fuse.Cache.State.{SameLimits-trans}
use squashfs_fuse.Cache.{Cache, ◌>>=◌}
use squashfs_fuse.Common.{true, List, [], ◌∷◌, ◌++◌, ◌≡◌, refl, ◌∙◌, arith}

call_returns :
    (m : Allocator) (c : Cache) (xs : List Cell) (x : Call)
    → IsSound m
    → c.has_free_fn ≡ true
    → IsCache c xs
    → Returns c xs (call m c x)
call_returns m c xs (call_get key) sound frees is = get_returns m c xs key is
call_returns m c xs (call_put key value size) sound frees is =
    put_returns m c xs key value size sound frees is
call_returns m c xs (call_remove key) sound frees is = remove_returns m c xs key frees is
call_returns m c xs call_clear sound frees is = clear_returns m c xs frees is

-- Whatever calls are made of a cache with a `free_fn`, whose limits are small enough for its sums and
-- allow an entry, and however often malloc fails, as long as it gives no address that is in use, each of them returns, the cache stays within the number of entries, and its limits stay as they
-- are. Every value that a put was given and took is afterwards in one entry or was freed, once: what was
-- freed and what the entries hold, taken together, is what it was before with the values that were
-- taken.
pub run-Returns :
    (m : Allocator) (c : Cache) (xs : List Cell) (calls : List Call)
    → IsSound m
    → c.has_free_fn ≡ true
    → IsCache c xs
    → Returns c xs (run m c calls)
unfolding run
run-Returns m c xs [] sound frees is = record {
  c' = c;
  own = [];
  ys = xs;
  runs = refl;
  cache = is;
  limits = (refl, refl, refl);
  owned = λ v. omega arith;
}
run-Returns m c xs (x ∷ calls) sound frees is =
    let now = call_returns m c xs x sound frees is in
    let later = run-Returns m now.c' now.ys calls sound (now.limits.2 ∙ frees) now.cache in
    let first = now.runs in
    let rest = later.runs in
    record {
      c' = later.c';
      own = now.own ++ later.own;
      ys = later.ys;
      runs = rw (run, first, ◌>>=◌, rest, ◌>>=◌) refl;
      cache = later.cache;
      limits = SameLimits-trans c now.c' later.c' now.limits later.limits;
      owned = λ v. omega (arith, now.owned v, later.owned v, copies-append v now.own later.own);
    }
