-- ===== src/Vault/Storage/Laws.antt =====
-- What the mutual recursion of `storage` gives, at any stack.
use elvish_email.Base.{
  ℕ, suc, ◌≡◌, ◌≢◌, ◌∙◌, refl, Bool, true, false, Option, none, some, arith, if◌then◌else◌,
}
use elvish_email.Base.Text.{text_eq_refl, lit}
use elvish_email.Vault.Storage.{
  WebStorage, chosen, or_null, Browser, Area, session_area, local_area, no_area, flag_in, storage,
  read_trusted_device_flag, set_trusted_flag, write_flag,
}

-- Both storages are there, and the flag is set in the first and not in the second.
pub record SplitFlag (b : Browser) (s l : WebStorage) : Type 0 where
  pub session : b.session ≡ some s
  pub local : b.local ≡ some l
  pub in_session : flag_in b session_area ≡ true
  pub not_in_local : flag_in b local_area ≡ false

pub storage_step :
    (b : Browser) (frames : ℕ) (s l : WebStorage) (a : Area)
    → b.session ≡ some s
    → b.local ≡ some l
    → storage b frames ≡ some a
    → storage b (suc (suc frames)) ≡ some (if flag_in b a then local_area else session_area)
unfolding storage
storage_step b frames s l a p q e = ground (arith, p, q, e)

storage-some : (b : Browser) (frames : ℕ) → (a : Area) × (storage b (suc frames) ≡ some a)
unfolding storage
storage-some b frames = go (read_trusted_device_flag b frames)
  where
    go : (o : Option Bool) → (a : Area) × (chosen b o ≡ some a)
    go none = (no_area, refl)
    go (some true) = (or_null b.local local_area, refl)
    go (some false) = (or_null b.session session_area, refl)

-- While the flag is set in sessionStorage and not in localStorage, two frames more of stack change
-- the answer of storage, whatever the stack, once there is any.
pub storage_alternates :
    (b : Browser) (frames : ℕ) (s l : WebStorage)
    → SplitFlag b s l
    → storage b (suc (suc (suc frames))) ≢ storage b (suc frames)
storage_alternates b frames s l h = λ e.
    let (a, now) = storage-some b frames in
    let then_ = storage_step b (suc frames) s l a h.session h.local now in
    differs b a h.in_session h.not_in_local (cc (now, then_, e))
  where
    differs :
        (b : Browser) (a : Area)
        → flag_in b session_area ≡ true
        → flag_in b local_area ≡ false
        → ◌≡◌ {A = Option Area} (some (if flag_in b a then local_area else session_area)) (some a)
        → ⊥
    differs b session_area p q e = ground (arith, p, e)
    differs b local_area p q e = ground (arith, q, e)
    differs b no_area p q e = unfold flag_in in ground (arith, e)

-- A browser with both storages and the flag in neither.
pub record IsFresh (b : Browser) (s l : WebStorage) : Type 0 where
  pub session : b.session ≡ some s
  pub local : b.local ≡ some l
  pub no_session_flag : s.flag ≡ none
  pub no_local_flag : l.flag ≡ none
  pub writes : s.writable ≡ true

fresh_storage :
    (b : Browser) (frames : ℕ) (s l : WebStorage)
    → IsFresh b s l
    → storage b (suc (suc (suc frames))) ≡ some session_area
fresh_storage b frames s l h =
    let (a, now) = storage-some b frames in
    storage_step b (suc frames) s l a h.session h.local now ∙ go b a h
  where
    go :
        (b : Browser) (a : Area)
        → IsFresh b s l
        → ◌≡◌ {A = Option Area}
            (some (if flag_in b a then local_area else session_area))
            (some session_area)
    go b session_area h = unfold flag_in in ground (arith, h.session, h.no_session_flag)
    go b local_area h = unfold flag_in in ground (arith, h.local, h.no_local_flag)
    go b no_area h = unfold flag_in in refl

trusted :
    (b : Browser) (s l : WebStorage)
    → IsFresh b s l
    → SplitFlag (write_flag session_area (some (lit "1")) b) (record s { flag = some (lit "1") }) l
unfolding write_flag flag_in
trusted b s l h = record {
  session = ground (arith, h.session, h.writes);
  local = h.local;
  in_session = ground (arith, h.session, h.writes, text_eq_refl (lit "1"));
  not_in_local = ground (arith, h.local, h.no_local_flag);
}

-- In a browser with both web storages and no flag, trusting the device brings about the state in
-- which storage never settles: two frames more of stack change its answer.
pub set_trusted_flag-alternates :
    (b : Browser) (depth frames : ℕ) (s l : WebStorage)
    → IsFresh b s l
    → storage (set_trusted_flag (suc (suc (suc depth))) true b) (suc (suc (suc frames)))
      ≢ storage (set_trusted_flag (suc (suc (suc depth))) true b) (suc frames)
set_trusted_flag-alternates b depth frames s l h =
    storage_alternates (set_trusted_flag (suc (suc (suc depth))) true b) frames
      (record s { flag = some (lit "1") }) l (split (fresh_storage b depth s l h))
  where
    split :
        storage b (suc (suc (suc depth))) ≡ some session_area
        → SplitFlag
            (set_trusted_flag (suc (suc (suc depth))) true b)
            (record s { flag = some (lit "1") })
            l
    split e = unfold set_trusted_flag in rw e (trusted b s l h)
