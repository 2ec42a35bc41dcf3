-- ===== src/Redis/Memory.antt =====
-- A server in memory, with a script of the commands that fail: the parameter `Env` can be met.
use by_framework_ts.Common.{
  ℕ, zero, suc, ◌+◌, ◌≤◌, Text, text_eq, text_eq_iff, codes, ◌≡◌, refl, ap, inl, Bool, true, false,
  not, ◌&&◌, List, [], ◌∷◌, ◌++◌, Option, none, some, ok, err, arith, All, length, is_some, leb,
  ◌==◌, if◌then◌else◌, lookup, insert, lookup-insert, includes,
}
use mathlib.Core.Path.{fun_ext}
use by_framework_ts.Redis.Keys.{Key, key_eq_iff}
use by_framework_ts.Redis.Values.{Value, number}
use by_framework_ts.Redis.Data.{
  Data, put_entry, put_field, put_member, clear_members, clear_fields, drop_range, count_entry,
  put_absent, number_at, outside, at_key,
}
use by_framework_ts.Redis.Stored.{
  erase, lookup-erase, entries, lookup-entries, entries-IsObject, without, includes-without,
}
use by_framework_ts.Redis.Env.{Env, Reply, Ran, InRange}

pub record Store : Type 0 where
  pub clock : ℕ
  -- Whether each of the commands to come throws; none of those after the script does.
  pub faults : List Bool
  pub zsets : Key → List (Text × ℕ)
  pub strs : Key → Option Value
  pub hashes : Key → List (Text × Value)
  pub sets : Key → List Text
  pub streams : Key → List Value

abbrev pub view : Store → Data
view s = record {
  zset = λ k m. lookup m (s.zsets k);
  str = s.strs;
  hash = λ k f. lookup f (s.hashes k);
  members = λ k m. includes text_eq (s.sets k) m;
  stream = s.streams;
}

-- A server with nothing in it, at a time.
abbrev pub empty : ℕ → Store
empty clock = record {
  clock = clock;
  faults = [];
  zsets = λ k. [];
  strs = λ k. none;
  hashes = λ k. [];
  sets = λ k. [];
  streams = λ k. [];
}

abbrev pub run_at : {A : Type 0} → List Bool → Store → (Store → A × Store) → Reply A × Store
run_at [] s f = (ok (f (record s { faults = [] })).0, (f (record s { faults = [] })).1)
run_at (true ∷ fs) s f = (err tt, record s { faults = fs })
run_at (false ∷ fs) s f = (ok (f (record s { faults = fs })).0, (f (record s { faults = fs })).1)

pub run_at-Ran :
    {A : Type 0} (Q : A → Type 0) (after : Data) (fs : List Bool) (s : Store)
    (f : Store → A × Store)
    → ((fs : List Bool)
        → Q (f (record s { faults = fs })).0 × (view (f (record s { faults = fs })).1 ≡ after))
    → Ran Q (view s) after (view (run_at fs s f).1) (run_at fs s f).0
run_at-Ran Q after [] s f h = h []
run_at-Ran Q after (true ∷ fs) s f h = inl refl
run_at-Ran Q after (false ∷ fs) s f h = h fs

-- Whether an entry is the one in force and its score in the range.
abbrev pub scored : Option ℕ → ℕ → Bool
scored none n = false
scored (some score) n = score == n

abbrev pub in_range : List (Text × ℕ) → ℕ → ℕ → Text × ℕ → Bool
in_range all lo hi (m, score) = leb lo score && leb score hi && scored (lookup m all) score

unfoldable pub range : List (Text × ℕ) → ℕ → ℕ → ℕ → List (Text × ℕ) → List (Text × ℕ)
range all lo hi zero z = []
range all lo hi (suc n) [] = []
range all lo hi (suc n) (e ∷ z) =
    let taken = range all lo hi n z in
    let passed = range all lo hi (suc n) z in if in_range all lo hi e then e ∷ taken else passed

pub range-InRange :
    (all : List (Text × ℕ)) (lo hi n : ℕ) (z : List (Text × ℕ))
    → All (InRange (λ m. lookup m all) lo hi) (range all lo hi n z)
      × (length (range all lo hi n z) ≤ n)
unfolding range
range-InRange all lo hi zero z = omega arith
range-InRange all lo hi (suc n) [] = omega arith
range-InRange all lo hi (suc n) ((m, score) ∷ z) =
    ground (arith, range-InRange all lo hi n z, range-InRange all lo hi (suc n) z)

unfoldable pub keep_outside : ℕ → ℕ → List (Text × ℕ) → List (Text × ℕ)
keep_outside lo hi [] = []
keep_outside lo hi ((m, score) ∷ z) =
    let rest = keep_outside lo hi z in
    if leb lo score && leb score hi then erase m rest else (m, score) ∷ rest

lookup-keep_outside :
    (lo hi : ℕ) (n : Text) (z : List (Text × ℕ))
    → lookup n (keep_outside lo hi z) ≡ outside lo hi (lookup n z)
unfolding lookup keep_outside
lookup-keep_outside lo hi n [] = refl
lookup-keep_outside lo hi n ((m, score) ∷ z) =
    ground (
      arith,
      text_eq_iff m n,
      lookup-erase m n (keep_outside lo hi z),
      lookup-keep_outside lo hi n z,
    )

abbrev pub put_zset : Key → List (Text × ℕ) → Store → Store
put_zset k z s = record s { zsets = at_key k z s.zsets }

-- The contents after one sorted set was replaced.
view-put_zset :
    (k : Key) (z : List (Text × ℕ)) (s : Store) (zset : Key → Text → Option ℕ)
    → ((j : Key) (m : Text) → lookup m (at_key k z s.zsets j) ≡ zset j m)
    → view (put_zset k z s) ≡ record (view s) { zset = zset }
view-put_zset k z s zset h =
    ap (λ f. let d : Data = record (view s) { zset = f } in d) (fun_ext (λ j. fun_ext (λ m. h j m)))

pub view-zadd :
    (k : Key) (n : ℕ) (m : Text) (s : Store)
    → view (put_zset k (insert m n (s.zsets k)) s) ≡ put_entry k m (some n) (view s)
view-zadd k n m s =
    view-put_zset k _ s _ (λ j x. ground (arith, key_eq_iff k j, lookup-insert m x n (s.zsets k)))

pub view-zrem :
    (k : Key) (m : Text) (s : Store)
    → view (put_zset k (erase m (s.zsets k)) s) ≡ put_entry k m none (view s)
view-zrem k m s =
    view-put_zset k _ s _ (λ j x. ground (arith, key_eq_iff k j, lookup-erase m x (s.zsets k)))

pub view-drop_range :
    (k : Key) (lo hi : ℕ) (s : Store)
    → view (put_zset k (keep_outside lo hi (s.zsets k)) s) ≡ drop_range k lo hi (view s)
view-drop_range k lo hi s =
    view-put_zset k _ s _
      (λ j x. ground (arith, key_eq_iff k j, lookup-keep_outside lo hi x (s.zsets k)))

abbrev pub put_value : Key → Option Value → Store → Store
put_value k v s = record s { strs = at_key k v s.strs }

abbrev pub put_fields : Key → List (Text × Value) → Store → Store
put_fields k fs s = record s { hashes = at_key k fs s.hashes }

view-put_fields :
    (k : Key) (fs : List (Text × Value)) (s : Store) (hash : Key → Text → Option Value)
    → ((j : Key) (f : Text) → lookup f (at_key k fs s.hashes j) ≡ hash j f)
    → view (put_fields k fs s) ≡ record (view s) { hash = hash }
view-put_fields k fs s hash h =
    ap (λ f. let d : Data = record (view s) { hash = f } in d) (fun_ext (λ j. fun_ext (λ f. h j f)))

abbrev pub put_hash : Key → Text → Value → Store → Store
put_hash k f v s = put_fields k (insert f v (s.hashes k)) s

pub view-put_hash :
    (k : Key) (f : Text) (v : Value) (s : Store)
    → view (put_hash k f v s) ≡ put_field k f (some v) (view s)
view-put_hash k f v s =
    view-put_fields k _ s _
      (λ j x. ground (arith, key_eq_iff k j, lookup-insert f x v (s.hashes k)))

pub view-clear_fields : (k : Key) (s : Store) → view (put_fields k [] s) ≡ clear_fields k (view s)
unfolding lookup
view-clear_fields k s = view-put_fields k _ s _ (λ j x. ground (arith, key_eq_iff k j))

abbrev pub put_set : Key → List Text → Store → Store
put_set k ms s = record s { sets = at_key k ms s.sets }

view-put_set :
    (k : Key) (ms : List Text) (s : Store) (members : Key → Text → Bool)
    → ((j : Key) (m : Text) → includes text_eq (at_key k ms s.sets j) m ≡ members j m)
    → view (put_set k ms s) ≡ record (view s) { members = members }
view-put_set k ms s members h =
    ap (λ f. let d : Data = record (view s) { members = f } in d)
      (fun_ext (λ j. fun_ext (λ m. h j m)))

pub view-sadd :
    (k : Key) (m : Text) (s : Store)
    → view (put_set k (m ∷ without m (s.sets k)) s) ≡ put_member k m true (view s)
view-sadd k m s =
    view-put_set k _ s _ (λ j x. ground (arith, key_eq_iff k j, includes-without m x (s.sets k)))

pub view-srem :
    (k : Key) (m : Text) (s : Store)
    → view (put_set k (without m (s.sets k)) s) ≡ put_member k m false (view s)
view-srem k m s =
    view-put_set k _ s _ (λ j x. ground (arith, key_eq_iff k j, includes-without m x (s.sets k)))

pub view-clear_members : (k : Key) (s : Store) → view (put_set k [] s) ≡ clear_members k (view s)
view-clear_members k s = view-put_set k _ s _ (λ j x. ground (arith, key_eq_iff k j))

abbrev pub put_new : Key → Value → Store → Store
put_new k v s = if is_some (s.strs k) then s else put_value k (some v) s

pub view-put_new :
    (k : Key) (v : Value) (s : Store) → view (put_new k v s) ≡ put_absent k v (view s)
view-put_new k v s = ground arith

abbrev pub incremented : Key → Text → ℕ → Store → ℕ
incremented k f n s = number_at (lookup f (s.hashes k)) + n

abbrev pub dropped : Key → ℕ → ℕ → Store → ℕ
dropped k lo hi s = length (range (s.zsets k) lo hi (length (s.zsets k)) (s.zsets k))

-- The server as the parameter of the development. The hash of a text is the text itself.
abbrev pub memory : Env
memory = record {
  Store = Store;
  view = view;
  now = λ s. s.clock;
  uuid = λ s. codes "00000000000000000000000000000000";
  sha1 = λ t. t;
  zadd = λ k n m s. run_at s.faults s (λ s. (tt, put_zset k (insert m n (s.zsets k)) s));
  zadd_lem = λ k n m s. run_at-Ran _ _ s.faults s _ (λ fs. (tt, view-zadd k n m s));
  zrem = λ k m s.
      run_at s.faults s
        (λ s. (count_entry (lookup m (s.zsets k)), put_zset k (erase m (s.zsets k)) s));
  zrem_lem = λ k m s. run_at-Ran _ _ s.faults s _ (λ fs. (refl, view-zrem k m s));
  zremrangebyscore = λ k lo hi s.
      run_at s.faults s (λ s. (dropped k lo hi s, put_zset k (keep_outside lo hi (s.zsets k)) s));
  zremrangebyscore_lem =
      λ k lo hi s. run_at-Ran _ _ s.faults s _ (λ fs. (tt, view-drop_range k lo hi s));
  zrangebyscore =
      λ k lo hi n s. run_at s.faults s (λ s. (range (s.zsets k) lo hi n (s.zsets k), s));
  zrangebyscore_lem = λ k lo hi n s.
      run_at-Ran _ _ s.faults s _ (λ fs. (range-InRange (s.zsets k) lo hi n (s.zsets k), refl));
  set = λ k v ttl s. run_at s.faults s (λ s. (tt, put_value k (some v) s));
  set_lem = λ k v ttl s. run_at-Ran _ _ s.faults s _ (λ fs. (tt, refl));
  set_nx = λ k v ttl s. run_at s.faults s (λ s. (not (is_some (s.strs k)), put_new k v s));
  set_nx_lem = λ k v ttl s.
      run_at-Ran _ _ s.faults s _ (λ fs. (refl, view-put_new k v (record s { faults = fs })));
  get = λ k s. run_at s.faults s (λ s. (s.strs k, s));
  get_lem = λ k s. run_at-Ran _ _ s.faults s _ (λ fs. (refl, refl));
  exists = λ k s. run_at s.faults s (λ s. (is_some (s.strs k), s));
  exists_lem = λ k s. run_at-Ran _ _ s.faults s _ (λ fs. (refl, refl));
  del = λ k s. run_at s.faults s (λ s. (tt, put_value k none s));
  del_lem = λ k s. run_at-Ran _ _ s.faults s _ (λ fs. (tt, refl));
  hget = λ k f s. run_at s.faults s (λ s. (lookup f (s.hashes k), s));
  hget_lem = λ k f s. run_at-Ran _ _ s.faults s _ (λ fs. (refl, refl));
  hset = λ k f v s. run_at s.faults s (λ s. (tt, put_hash k f v s));
  hset_lem = λ k f v s. run_at-Ran _ _ s.faults s _ (λ fs. (tt, view-put_hash k f v s));
  hincrby = λ k f n s.
      run_at s.faults s (λ s. (incremented k f n s, put_hash k f (number (incremented k f n s)) s));
  hincrby_lem = λ k f n s.
      run_at-Ran _ _ s.faults s _
        (λ fs. (refl, view-put_hash k f (number (incremented k f n s)) s));
  sadd = λ k m s. run_at s.faults s (λ s. (tt, put_set k (m ∷ without m (s.sets k)) s));
  sadd_lem = λ k m s. run_at-Ran _ _ s.faults s _ (λ fs. (tt, view-sadd k m s));
  srem = λ k m s. run_at s.faults s (λ s. (tt, put_set k (without m (s.sets k)) s));
  srem_lem = λ k m s. run_at-Ran _ _ s.faults s _ (λ fs. (tt, view-srem k m s));
  sismember = λ k m s. run_at s.faults s (λ s. (includes text_eq (s.sets k) m, s));
  sismember_lem = λ k m s. run_at-Ran _ _ s.faults s _ (λ fs. (refl, refl));
  smembers = λ k s. run_at s.faults s (λ s. (s.sets k, s));
  smembers_lem = λ k s. run_at-Ran _ _ s.faults s _ (λ fs. (λ m. refl, refl));
  del_set = λ k s. run_at s.faults s (λ s. (tt, put_set k [] s));
  del_set_lem = λ k s. run_at-Ran _ _ s.faults s _ (λ fs. (tt, view-clear_members k s));
  del_hash = λ k s. run_at s.faults s (λ s. (tt, put_fields k [] s));
  del_hash_lem = λ k s. run_at-Ran _ _ s.faults s _ (λ fs. (tt, view-clear_fields k s));
  hgetall = λ k s. run_at s.faults s (λ s. (entries (s.hashes k), s));
  hgetall_lem = λ k s.
      run_at-Ran _ _ s.faults s _
        (λ fs. ((entries-IsObject (s.hashes k), λ f. lookup-entries f (s.hashes k)), refl));
  sleep = λ ms s. record s { clock = s.clock + ms };
  sleep_lem = λ ms s. omega arith;
  expire = λ k ttl s. run_at s.faults s (λ s. (tt, s));
  expire_lem = λ k ttl s. run_at-Ran _ _ s.faults s _ (λ fs. (tt, refl));
  xadd = λ k v s.
      run_at s.faults s
        (λ s. (tt, record s { streams = at_key k (s.streams k ++ v ∷ []) s.streams }));
  xadd_lem = λ k v s. run_at-Ran _ _ s.faults s _ (λ fs. (tt, refl));
}
