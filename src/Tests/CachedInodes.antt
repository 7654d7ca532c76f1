-- ===== src/Tests/CachedInodes.antt =====
-- Two threads use the same inode: one reads it, the other finds it and waits, and the first gives it
-- back.
use os_pi_is_cool.Base.{ℕ, refl, arith, none, [], ◌∷◌, ◌==◌, false}
use os_pi_is_cool.Fs.Errors.{pos, success}
use os_pi_is_cool.Fs.InodeCache.{InodeCache, look_up, after_load, empty_inode_cache}
use os_pi_is_cool.Fs.InodeCache.Users.{
  Shared, user, holds, waits, join, keep, dropped, woken, Steps, at_start, then_step, look, load,
  wake, drop,
}
use os_pi_is_cool.Fs.InodeCache.Sound.{Sound}
use os_pi_is_cool.Fs.InodeCache.Empty.{Emptied, empty_inode_cache_lem}
use os_pi_is_cool.Fs.InodeCache.Reach.{Steps-Sound}

abbrev no_inodes : Shared ℕ
no_inodes = record {
  cache = record {
    nodes = [];
    heap = λ p. record {
      num_refs = pos 0;
      loading = false;
      load_error = none;
      inode = 0;
      id = 0;
      dirty = false;
    };
    hits = 0;
    misses = 0;
    evictions = 0;
    written = [];
    freed = [];
  };
  users = [];
  flushing = [];
}

abbrev first_looked : Shared ℕ
first_looked = join 4 no_inodes (look_up 5 4 0 no_inodes.cache)

abbrev second_looked : Shared ℕ
second_looked = join 4 first_looked (look_up 6 4 0 first_looked.cache)

abbrev first_loaded : Shared ℕ
first_loaded =
    keep 4 (user waits 4 5 ∷ []) second_looked (after_load 5 (success 9) second_looked.cache)

abbrev second_woken : Shared ℕ
second_woken = woken 4 5 (user holds 4 5 ∷ []) first_loaded none

abbrev one_left : Shared ℕ
one_left = dropped 4 (user holds 4 5 ∷ []) second_woken

two_users : Steps no_inodes one_left
two_users =
    then_step
      (then_step
        (then_step (then_step (then_step at_start (look 5 4 0 tt)) (look 6 4 0 (ground arith, tt)))
          (load 4 5 (success 9) (user waits 4 5 ∷ []) [] refl))
        (wake 4 5 (user holds 4 5 ∷ []) [] refl refl))
      (drop 4 5 [] (user holds 4 5 ∷ []) refl)

Steps-Sound_example : Sound one_left.cache.nodes one_left.cache.heap one_left.users
Steps-Sound_example = Steps-Sound no_inodes one_left refl refl two_users

-- A cache of two inodes, the first of which is dirty.
abbrev two_inodes : InodeCache ℕ
two_inodes = record no_inodes.cache {
  nodes = 5 ∷ 6 ∷ [];
  heap = λ p. record {
    num_refs = pos 1;
    loading = false;
    load_error = none;
    inode = 9;
    id = p;
    dirty = p == 5;
  };
}

empty_inode_cache_lem_example :
    Emptied two_inodes (5 ∷ 6 ∷ []) (empty_inode_cache (λ p. success tt) two_inodes)
empty_inode_cache_lem_example =
    empty_inode_cache_lem two_inodes (λ p. success tt) (refl, (refl, tt)) (refl, (refl, tt))
      (λ p. refl)
