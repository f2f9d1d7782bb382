-- ===== src/Attestation/Tests.antt =====
-- src/attestation.rs: the source's own vectors, and a small kernel and helper.
use instance_lib.Codec.Hex.{hex_decode, hex_encode}
use instance_lib.Prelude.{Bytes, ◌++◌, ◌↔◌, none, ◌≡◌, true, [], some, replicate, ◌∷◌, codes, refl}
use instance_lib.Codec.Base64.{b64_encode}
use instance_lib.State.{empty_store}
use instance_lib.Http.{json}
use instance_lib.Attestation.{
  within_rate, Envelope, Evidence, envelope_of, derive_gpu_nonce, handler,
}
use instance_lib.Attestation.Quote.{
  begin_mark, end_mark, Tsm, Kernel, tdx_quote, pck_chain_from_quote, from_utf8_lossy,
}
use instance_lib.Attestation.Gpus.{Helper, Output, Gpu}
use instance_lib.Attestation.Lifts.{Lifts, pck_chain_from_quote-Lifts}
use instance_lib.Attestation.Laws.{IsAttested, handler_iff}
use instance_lib.Fixtures.{digest, plain_kernel, plain_helper}

abbrev fresh_tsm : Tsm plain_kernel
fresh_tsm = record { fs = 0; seq = 5 }

abbrev evidence : Evidence
evidence = record {
  quote = codes "quote";
  cpu_chain = [];
  gpus = replicate 8 (codes "AB", codes "BC" ∷ []);
}

handler_iff_example :
    ((handler digest plain_kernel plain_helper none 0
        (replicate 32 1)
        (some (hex_encode (replicate 32 2)))
        empty_store
        fresh_tsm).1.1
      ≡ json (envelope_of evidence))
    ↔ (((within_rate digest plain_kernel plain_helper none 0 empty_store).1 ≡ true)
        × IsAttested digest plain_kernel plain_helper
            (replicate 32 1)
            (some (hex_encode (replicate 32 2)))
            fresh_tsm
            (envelope_of evidence))
handler_iff_example =
    handler_iff digest plain_kernel plain_helper none 0 (replicate 32 1)
      (some (hex_encode (replicate 32 2))) empty_store fresh_tsm (envelope_of evidence)

-- That attestation is answered.
answered :
    (handler digest plain_kernel plain_helper none 0
      (replicate 32 1)
      (some (hex_encode (replicate 32 2)))
      empty_store
      fresh_tsm).1.1
    ≡ json (envelope_of evidence)
unfolding handler instance_lib.Attestation.attest instance_lib.Attestation.nonce_of
    instance_lib.Codec.Hex.hex_decode hex_encode instance_lib.Attestation.gather tdx_quote
    instance_lib.Attestation.Quote.write_and_read instance_lib.Attestation.Gpus.gpu_reports_all
    instance_lib.Attestation.gpu_nonces instance_lib.Attestation.Gpus.decode_gpu
    instance_lib.Codec.Base64.b64_decode_any pck_chain_from_quote
answered = refl

-- A block that is no base64, and one that is.
abbrev two_blocks : Bytes
two_blocks =
    begin_mark ++ (codes "no base64" ++ (end_mark ++ (begin_mark ++ (codes "QUI=" ++ end_mark))))

pck_chain_from_quote-Lifts_example :
    Lifts (from_utf8_lossy two_blocks) (pck_chain_from_quote two_blocks)
pck_chain_from_quote-Lifts_example = pck_chain_from_quote-Lifts two_blocks

two_blocks_chain : pck_chain_from_quote two_blocks ≡ codes "AB" ∷ []
unfolding pck_chain_from_quote instance_lib.Attestation.Quote.from_utf8_lossy
    instance_lib.Attestation.Quote.pem_blocks instance_lib.Codec.Base64.b64_decode_any
two_blocks_chain = refl
