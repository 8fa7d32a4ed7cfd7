-- ===== src/Execution/Backend/Usable.antt =====
-- What the choice of packages/core/encodr_core/execution/backend_selection.py rests on.
use encodr.Prelude.{
  ℕ, String, ◌≡◌, refl, ap, ◌∙◌, ◌⊎◌, Bool, true, false, Option, none, some, List, Bool-cases,
  Option-cases, inl, inr,
}
use encodr.Execution.Backend.{
  Flag, RequestedBackend, Accelerator, BackendProbe, SelectedExecutionBackend, encoder_of, codec_of,
  first_device_path, requested_of, cpu_selected, cpu_selection, accelerated, qsv_selection,
  vaapi_selection, usable_selection, accelerated_selection, probe_backend_for_preference, is_cpu,
  select_execution_backend,
}

-- What the probe of a machine says of an accelerator.
abbrev pub supports : Accelerator → BackendProbe → Bool
supports Accelerator.cpu probe = false
supports Accelerator.nvenc probe = true
supports Accelerator.qsv probe = probe.qsv.usable
supports Accelerator.vaapi probe = probe.vaapi.usable
supports Accelerator.amf probe = probe.amf.usable

-- An accelerator with the codec's own encoder.
abbrev Encodes : List ℕ → Accelerator → SelectedExecutionBackend → Type 0
Encodes codec accelerator s =
    (s.accelerator ≡ accelerator) × (encoder_of s.accelerator codec ≡ some s.video_encoder)

abbrev Supported : List ℕ → BackendProbe → SelectedExecutionBackend → Type 0
Supported codec probe s =
    (encoder_of s.accelerator codec ≡ some s.video_encoder) × (supports s.accelerator probe ≡ true)

module _ (requested : RequestedBackend) (codec : List ℕ) where
  accelerated-Encodes :
      (actual : RequestedBackend) (accelerator : Accelerator) (prefix : List Flag)
      (filter device : Option String) (encoder : Option String) {s : SelectedExecutionBackend}
      → encoder_of accelerator codec ≡ encoder
      → accelerated requested codec actual accelerator prefix filter device encoder ≡ some s
      → Encodes codec accelerator s
  accelerated-Encodes actual accelerator prefix filter device none e h = cc
  accelerated-Encodes actual accelerator prefix filter device (some encoder) {s} e h =
      let kind : s.accelerator ≡ accelerator = cc h in
      let named : encoder ≡ s.video_encoder = cc h in
      (kind, ap (λ a. encoder_of a codec) kind ∙ e ∙ ap some named)

  vaapi-Supported :
      (actual : RequestedBackend) (probe : BackendProbe) {s : SelectedExecutionBackend}
      → vaapi_selection requested codec actual probe.vaapi ≡ some s
      → Supported codec probe s
  vaapi-Supported actual probe {s} h = elim (Bool-cases probe.vaapi.usable) [
    | inr off ↦ absurd (cc (simp off at h))
    | inl on ↦ elim (Option-cases (first_device_path probe.vaapi.device_paths)) [
      | inl missing ↦ absurd (cc (simp (on, missing) at h))
      | inr (device, there) ↦
          let (kind, encoder) =
            accelerated-Encodes actual Accelerator.vaapi _ _ _ (encoder_of Accelerator.vaapi codec)
              refl (simp (on, there) at h) in
          (encoder, ap (λ a. supports a probe) kind ∙ on)
    ]
  ]

  qsv-Supported :
      (on_windows : Bool) (probe : BackendProbe) {s : SelectedExecutionBackend}
      → probe.qsv.usable ≡ true
      → qsv_selection requested codec on_windows probe.qsv ≡ some s
      → Supported codec probe s
  unfolding qsv_selection
  qsv-Supported on_windows probe on h =
      let (kind, encoder) =
        accelerated-Encodes RequestedBackend.intel_qsv Accelerator.qsv _ _ _
          (encoder_of Accelerator.qsv codec) refl h in
      (encoder, ap (λ a. supports a probe) kind ∙ on)

module _ (codec : List ℕ) (on_windows : Bool) (probe : BackendProbe) where
  usable-Supported :
      (requested : RequestedBackend) {s : SelectedExecutionBackend}
      → usable_selection requested codec on_windows probe ≡ some s
      → Supported codec probe s
  unfolding usable_selection
  usable-Supported RequestedBackend.cpu h = cc
  usable-Supported RequestedBackend.intel_auto h = elim (Bool-cases probe.qsv.usable) [
    | inl on ↦ qsv-Supported RequestedBackend.intel_auto codec on_windows probe on (simp on at h)
    | inr off ↦
        vaapi-Supported RequestedBackend.intel_auto codec RequestedBackend.intel_vaapi probe
          (simp off at h)
  ]
  usable-Supported RequestedBackend.intel_qsv h = elim (Bool-cases probe.qsv.usable) [
    | inl on ↦ qsv-Supported RequestedBackend.intel_qsv codec on_windows probe on (simp on at h)
    | inr off ↦ absurd (cc (simp off at h))
  ]
  usable-Supported RequestedBackend.intel_vaapi h =
      vaapi-Supported RequestedBackend.intel_vaapi codec RequestedBackend.intel_vaapi probe h
  usable-Supported RequestedBackend.nvidia_gpu h =
      let (kind, encoder) =
        accelerated-Encodes RequestedBackend.nvidia_gpu codec RequestedBackend.nvidia_gpu
          Accelerator.nvenc _ _ _ (encoder_of Accelerator.nvenc codec) refl h in
      (encoder, ap (λ a. supports a probe) kind)
  usable-Supported RequestedBackend.amd_gpu h = elim (Bool-cases probe.amf.usable) [
    | inl on ↦
        let (kind, encoder) =
          accelerated-Encodes RequestedBackend.amd_gpu codec RequestedBackend.amd_gpu
            Accelerator.amf _ _ _ (encoder_of Accelerator.amf codec) refl (simp on at h) in
        (encoder, ap (λ a. supports a probe) kind ∙ on)
    | inr off ↦
        vaapi-Supported RequestedBackend.amd_gpu codec RequestedBackend.amd_gpu probe
          (simp off at h)
  ]

-- A probe that is there and usable, and supports the choice.
abbrev pub Probed : List ℕ → Option BackendProbe → SelectedExecutionBackend → Type 0
Probed codec found s =
    (probe : BackendProbe) × (found ≡ some probe)
    × (probe.usable ≡ true)
    × (supports s.accelerator probe ≡ true)

accelerated-Probed :
    (requested : RequestedBackend) (codec : List ℕ) (on_windows : Bool)
    (found : Option BackendProbe) {s : SelectedExecutionBackend}
    → accelerated_selection requested codec on_windows found ≡ some s
    → (encoder_of s.accelerator codec ≡ some s.video_encoder) × Probed codec found s
unfolding accelerated_selection
accelerated-Probed requested codec on_windows none h = cc
accelerated-Probed requested codec on_windows (some probe) h = elim (Bool-cases probe.usable) [
  | inr off ↦ absurd (cc (simp off at h))
  | inl on ↦
      let (encoder, supported) = usable-Supported codec on_windows probe requested (simp on at h) in
      (encoder, (probe, refl, on, supported))
]

-- The processor, by its own table.
abbrev OnCpu : List ℕ → Bool → SelectedExecutionBackend → Type 0
OnCpu codec fallback s =
    (encoder_of s.accelerator codec ≡ some s.video_encoder)
    × (s.accelerator ≡ Accelerator.cpu)
    × (s.fallback_used ≡ fallback)

cpu-OnCpu :
    (requested : RequestedBackend) (codec : List ℕ) (fallback : Bool) {s : SelectedExecutionBackend}
    → cpu_selection requested codec fallback ≡ some s
    → OnCpu codec fallback s
unfolding cpu_selection
cpu-OnCpu requested codec fallback {s} h = elim (Option-cases (encoder_of Accelerator.cpu codec)) [
  | inl missing ↦ absurd (cc (simp missing at h))
  | inr (encoder, there) ↦
      let made : cpu_selected requested codec fallback (some encoder) ≡ some s = simp there at h in
      let kind : s.accelerator ≡ Accelerator.cpu = cc made in
      let named : encoder ≡ s.video_encoder = cc made in
      (ap (λ a. encoder_of a codec) kind ∙ there ∙ ap some named, kind, cc made)
]

-- An encoder is chosen from the table of its accelerator, for the codec. It runs on a usable probe of the preferred
-- backend that supports the accelerator; or on the processor, which was asked for, or is fallen back to by permission.
pub select_execution_backend_sound :
    (on_windows : Bool) (probes : String → Option BackendProbe) (preferred : Option String)
    (allow : Bool) (target_codec : Option String) {s : SelectedExecutionBackend}
    → select_execution_backend on_windows probes preferred allow target_codec ≡ some s
    → (encoder_of s.accelerator (codec_of target_codec) ≡ some s.video_encoder)
      × (Probed
            (codec_of target_codec)
            (probes (probe_backend_for_preference (requested_of preferred)))
            s
          ⊎ ((s.accelerator ≡ Accelerator.cpu)
              × (((is_cpu (requested_of preferred) ≡ true) × (s.fallback_used ≡ false))
                  ⊎ ((allow ≡ true) × (s.fallback_used ≡ true)))))
unfolding select_execution_backend
select_execution_backend_sound on_windows probes preferred allow target_codec {s} h =
    let requested = requested_of preferred in
    let codec = codec_of target_codec in
    let found = probes (probe_backend_for_preference requested) in
    elim (Bool-cases (is_cpu requested)) [
      | inl own ↦
          let (encoder, kind, none_used) = cpu-OnCpu requested codec false (simp own at h) in
          (encoder, inr (kind, inl (own, none_used)))
      | inr other ↦ elim (Option-cases (accelerated_selection requested codec on_windows found)) [
        | inr (chosen, e) ↦
            let made : some chosen ≡ some s = simp (other, e) at h in
            let (encoder, probed) =
              accelerated-Probed requested codec on_windows found (e ∙ made) in
            (encoder, inl probed)
        | inl missing ↦ elim (Bool-cases allow) [
          | inr forbidden ↦ absurd (cc (simp (other, missing, forbidden) at h))
          | inl allowed ↦
              let (encoder, kind, used) =
                cpu-OnCpu requested codec true (simp (other, missing, allowed) at h) in
              (encoder, inr (kind, inr (allowed, used)))
        ]
      ]
    ]
