-- ===== src/Manifest/Bucket/Requests.antt =====
-- What one request of src/manifest.rs to a bucket does to the objects.
use karet_worker.Common.{◌≡◌, refl, ◌⊎◌, inl, inr, List, [], ◌∷◌, arith}
use karet_worker.Common.Result.{Result, ok}
use karet_worker.Common.Text.{Text}
use karet_worker.Manifest.Bucket.{
  Objects, Bucket, Fault, works, refused, reply_lost, deliver, request,
}

-- A request is carried out or not.
pub deliver_objects :
    {A : Type 0} (f : Objects → Result A Text × Objects) (b : Bucket) (fs : List Fault)
    → ((deliver fs f b).1.objects ≡ b.objects) ⊎ ((deliver fs f b).1.objects ≡ (f b.objects).1)
unfolding deliver
deliver_objects f b [] = inr refl
deliver_objects f b (works ∷ fs) = inr refl
deliver_objects f b (refused e ∷ fs) = inl refl
deliver_objects f b (reply_lost e ∷ fs) = inr refl

-- A request that only reads leaves the objects.
pub read_objects :
    {A : Type 0} (f : Objects → Result A Text) (b : Bucket)
    → (request (λ o. (f o, o)) b).1.objects ≡ b.objects
unfolding request
read_objects f b = elim (deliver_objects (λ o. (f o, o)) b b.faults) [ inl e ↦ e | inr e ↦ e ]

-- And if it is answered, the answer is right.
pub deliver_answer :
    {A : Type 0} (f : Objects → Result A Text) (b : Bucket) (a : A) (fs : List Fault)
    → (deliver fs (λ o. (f o, o)) b).0 ≡ ok a
    → f b.objects ≡ ok a
unfolding deliver
deliver_answer f b a [] e = e
deliver_answer f b a (works ∷ fs) e = e
deliver_answer f b a (refused x ∷ fs) e = ground (arith, e)
deliver_answer f b a (reply_lost x ∷ fs) e = ground (arith, e)
