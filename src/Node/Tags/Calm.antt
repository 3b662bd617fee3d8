-- ===== src/Node/Tags/Calm.antt =====
-- The answers that are on their way to the filler task, in runs in which no request is given up.
use cess_scheduler.Prelude.{
  ℕ, ◌≡◌, ◌≢◌, refl, sym, ap, ◌∙◌, Bytes, Option, none, some, List, [], ◌∷◌, ◌++◌, arith, ◌⊎◌, inl,
  inr,
}
use cess_scheduler.Node.Tags.{
  PubTag, TagEnv, get_tag, Saving, refused, panics, unsaved, saved, saved_panics, save_tag,
  tag_path,
}
use cess_scheduler.Node.Tags.System.{
  Generator, idle, waiting, Post, arrived, sending, World, posted, looked, finish, Event, expire,
  Step, starts, expires, answers, looks, drains, sends, takes, queues, consumes,
}

middle-ne-nil : {A : Type 0} (before : List A) (x : A) (after : List A) → before ++ x ∷ after ≢ []
middle-ne-nil [] x after e = cc
middle-ne-nil (b ∷ bs) x after e = cc

single_middle :
    {A : Type 0} (before : List A) (x y : A) (after : List A)
    → before ++ x ∷ after ≡ y ∷ []
    → (before ≡ []) × (x ≡ y) × (after ≡ [])
single_middle [] x y after e = (refl, cc, cc)
single_middle (b ∷ bs) x y after e =
    let tails : bs ++ x ∷ after ≡ [] = cc in absurd (middle-ne-nil bs x after tails)

module _ (env : TagEnv) (tee : Bytes → Option (ℕ × PubTag)) where
  -- The state between a request and the end of its wait: at most one answer is on its way, to the filler
  -- that the task waits for.
  pub data Calm (w : World) : Type 0 where
    empty : w.asked ≡ [] → w.posts ≡ [] → w.ch_tag ≡ [] → Calm w
    asking :
        (p : Bytes)
        → w.generator ≡ waiting p
        → w.asked ≡ p ∷ []
        → w.posts ≡ []
        → w.ch_tag ≡ []
        → Calm w
    posting :
        (p : Bytes) (t : PubTag) (g : Post)
        → (g ≡ arrived t) ⊎ (g ≡ sending t)
        → get_tag (tee p) ≡ some t
        → w.generator ≡ waiting p
        → w.asked ≡ []
        → w.posts ≡ g ∷ []
        → w.ch_tag ≡ []
        → Calm w
    ready :
        (p : Bytes) (t : PubTag)
        → get_tag (tee p) ≡ some t
        → w.generator ≡ waiting p
        → w.asked ≡ []
        → w.posts ≡ []
        → w.ch_tag ≡ t ∷ []
        → Calm w

  posted-Calm :
      (p : Bytes) (o : Option PubTag) (w : World)
      → get_tag (tee p) ≡ o
      → w.generator ≡ waiting p
      → w.asked ≡ []
      → w.posts ≡ posted o []
      → w.ch_tag ≡ []
      → Calm w
  posted-Calm p none w e g a s c = empty a s c
  posted-Calm p (some t) w e g a s c = posting p t (arrived t) (inl refl) e g a s c

  finish-empty :
      (p : Bytes) (r : Saving) (w : World)
      → w.asked ≡ []
      → w.posts ≡ []
      → w.ch_tag ≡ []
      → Calm (finish p r w)
  unfolding finish
  finish-empty p refused w a s c = empty a s c
  finish-empty p panics w a s c = empty a s c
  finish-empty p unsaved w a s c = empty a s c
  finish-empty p (saved t) w a s c = empty a s c
  finish-empty p (saved_panics t) w a s c = empty a s c

  idle-ne-waiting : {g : Generator} {p : Bytes} → g ≡ idle → g ≢ waiting p
  idle-ne-waiting g h = let e = sym g ∙ h in ground arith

  looks-Calm :
      (w : World) (before after : List Post) (q : Bytes) (t r : PubTag) (o : Post)
      → w.posts ≡ before ++ arrived t ∷ after
      → (o ≡ arrived r) ⊎ (o ≡ sending r)
      → get_tag (tee q) ≡ some r
      → w.generator ≡ waiting q
      → w.asked ≡ []
      → w.posts ≡ o ∷ []
      → w.ch_tag ≡ []
      → Calm (record w { posts = before ++ looked w.ch_tag t ∷ after })
  looks-Calm w before after q t r o x (inr k) f h a s c =
      let (b, e, d) = single_middle before _ _ _ (sym x ∙ s) in
      absurd (let n = e ∙ k in ground arith)
  looks-Calm w before after q t r o x (inl k) f h a s c =
      let (b, e, d) = single_middle before _ _ _ (sym x ∙ s) in
      let same : t ≡ r = let n = e ∙ k in ground arith in
      posting q r (sending r) (inr refl) f h a (λ i. b i ++ looked (c i) (same i) ∷ d i) c

  sends-Calm :
      (w : World) (before after : List Post) (q : Bytes) (t r : PubTag) (o : Post)
      → w.posts ≡ before ++ sending t ∷ after
      → (o ≡ arrived r) ⊎ (o ≡ sending r)
      → get_tag (tee q) ≡ some r
      → w.generator ≡ waiting q
      → w.asked ≡ []
      → w.posts ≡ o ∷ []
      → Calm (record w { posts = before ++ after; ch_tag = t ∷ [] })
  sends-Calm w before after q t r o x (inl k) f h a s =
      let (b, e, d) = single_middle before _ _ _ (sym x ∙ s) in
      absurd (let n = e ∙ k in ground arith)
  sends-Calm w before after q t r o x (inr k) f h a s =
      let (b, e, d) = single_middle before _ _ _ (sym x ∙ s) in
      let same : t ≡ r = let n = e ∙ k in ground arith in
      ready q r f h a (λ i. b i ++ d i) (λ i. same i ∷ [])

  answers-Calm :
      (w : World) (before after : List Bytes) (p q : Bytes)
      → w.asked ≡ before ++ p ∷ after
      → w.generator ≡ waiting q
      → w.asked ≡ q ∷ []
      → w.posts ≡ []
      → w.ch_tag ≡ []
      → Calm (record w { asked = before ++ after; posts = posted (get_tag (tee p)) w.posts })
  answers-Calm w before after p q x h a s c =
      let (b, e, d) = single_middle before _ _ _ (sym x ∙ a) in
      posted-Calm q (get_tag (tee q)) _ refl h (λ i. b i ++ d i)
        (λ i. posted (get_tag (tee (e i))) (s i)) c

  pub Step-Calm : (e : Event) (w v : World) → e ≢ expire → Step env tee e w v → Calm w → Calm v
  Step-Calm e w v ok (starts text p g room made free) (empty a s c) =
      asking p refl (ap (λ (l : List Bytes). p ∷ l) a) s c
  Step-Calm e w v ok (starts text p g room made free) (asking q h a s c) =
      absurd (idle-ne-waiting g h)
  Step-Calm e w v ok (starts text p g room made free) (posting q t o k f h a s c) =
      absurd (idle-ne-waiting g h)
  Step-Calm e w v ok (starts text p g room made free) (ready q t f h a s c) =
      absurd (idle-ne-waiting g h)
  Step-Calm e w v ok (expires p g) calm = absurd (ok refl)
  Step-Calm e w v ok (answers before after p x) (empty a s c) =
      absurd (middle-ne-nil before _ _ (sym x ∙ a))
  Step-Calm e w v ok (answers before after p x) (asking q h a s c) =
      answers-Calm w before after p q x h a s c
  Step-Calm e w v ok (answers before after p x) (posting q t o k f h a s c) =
      absurd (middle-ne-nil before _ _ (sym x ∙ a))
  Step-Calm e w v ok (answers before after p x) (ready q t f h a s c) =
      absurd (middle-ne-nil before _ _ (sym x ∙ a))
  Step-Calm e w v ok (looks before after t x) (empty a s c) =
      absurd (middle-ne-nil before _ _ (sym x ∙ s))
  Step-Calm e w v ok (looks before after t x) (asking q h a s c) =
      absurd (middle-ne-nil before _ _ (sym x ∙ s))
  Step-Calm e w v ok (looks before after t x) (posting q r o k f h a s c) =
      looks-Calm w before after q t r o x k f h a s c
  Step-Calm e w v ok (looks before after t x) (ready q r f h a s c) =
      absurd (middle-ne-nil before _ _ (sym x ∙ s))
  Step-Calm e w v ok (drains before after t y ys x z) (empty a s c) =
      absurd (middle-ne-nil before _ _ (sym x ∙ s))
  Step-Calm e w v ok (drains before after t y ys x z) (asking q h a s c) =
      absurd (middle-ne-nil before _ _ (sym x ∙ s))
  Step-Calm e w v ok (drains before after t y ys x z) (posting q r o k f h a s c) =
      absurd (let n = sym z ∙ c in cc)
  Step-Calm e w v ok (drains before after t y ys x z) (ready q r f h a s c) =
      absurd (middle-ne-nil before _ _ (sym x ∙ s))
  Step-Calm e w v ok (sends before after t x z) (empty a s c) =
      absurd (middle-ne-nil before _ _ (sym x ∙ s))
  Step-Calm e w v ok (sends before after t x z) (asking q h a s c) =
      absurd (middle-ne-nil before _ _ (sym x ∙ s))
  Step-Calm e w v ok (sends before after t x z) (posting q r o k f h a s c) =
      sends-Calm w before after q t r o x k f h a s
  Step-Calm e w v ok (sends before after t x z) (ready q r f h a s c) =
      absurd (middle-ne-nil before _ _ (sym x ∙ s))
  Step-Calm e w v ok (takes p t ts g z) (empty a s c) = absurd (let n = sym z ∙ c in cc)
  Step-Calm e w v ok (takes p t ts g z) (asking q h a s c) = absurd (let n = sym z ∙ c in cc)
  Step-Calm e w v ok (takes p t ts g z) (posting q r o k f h a s c) =
      absurd (let n = sym z ∙ c in cc)
  Step-Calm e w v ok (takes p t ts g z) (ready q r f h a s c) =
      let rest : ts ≡ [] = let n = sym z ∙ c in ground arith in
      finish-empty p (save_tag env (tag_path p) t) (record w { ch_tag = ts }) a s rest
  Step-Calm e w v ok (queues f g room) (empty a s c) = empty a s c
  Step-Calm e w v ok (queues f g room) (asking q h a s c) =
      absurd (let n = sym g ∙ h in ground arith)
  Step-Calm e w v ok (queues f g room) (posting q r o k i h a s c) =
      absurd (let n = sym g ∙ h in ground arith)
  Step-Calm e w v ok (queues f g room) (ready q r i h a s c) =
      absurd (let n = sym g ∙ h in ground arith)
  Step-Calm e w v ok (consumes f fs x) (empty a s c) = empty a s c
  Step-Calm e w v ok (consumes f fs x) (asking q h a s c) = asking q h a s c
  Step-Calm e w v ok (consumes f fs x) (posting q r o k i h a s c) = posting q r o k i h a s c
  Step-Calm e w v ok (consumes f fs x) (ready q r i h a s c) = ready q r i h a s c

  pub taken :
      (w : World) (p : Bytes) (t : PubTag) (ts : List PubTag)
      → Calm w
      → w.generator ≡ waiting p
      → w.ch_tag ≡ t ∷ ts
      → get_tag (tee p) ≡ some t
  taken w p t ts (empty a s c) g z = absurd (let n = sym z ∙ c in cc)
  taken w p t ts (asking q h a s c) g z = absurd (let n = sym z ∙ c in cc)
  taken w p t ts (posting q r o k f h a s c) g z = absurd (let n = sym z ∙ c in cc)
  taken w p t ts (ready q r f h a s c) g z =
      let x : p ≡ q = let n = sym g ∙ h in ground arith in
      let y : r ≡ t = let n = sym c ∙ z in ground arith in
      ap (λ (b : Bytes). get_tag (tee b)) x ∙ f ∙ ap some y
