-- ===== src/Diameter/Sample.antt =====
-- A go-diameter for the examples: it sends identifiers that are not random, and knows the logarithm of 50 m.
use vectorcore_gmlc.Base.{refl, true, false, [], ◌∷◌}
use vectorcore_gmlc.Base.Float.{pos}
use vectorcore_gmlc.Diameter.Message.{
  Diam, IsRequest, IsAnswer, avp, value, unsigned, mbit, result_code,
}

abbrev pub sample : Diam
sample = record {
  new_request = λ command app. record {
    header = record {
      application_id = app;
      command_code = command;
      request = true;
      proxiable = false;
      hop_by_hop = 1;
      end_to_end = 2;
    };
    avps = [];
  };
  answer = λ m rc. record {
    header = record m.header { request = false };
    avps = avp result_code mbit 0 (value (unsigned rc)) ∷ [];
  };
  floor_log = λ meters. pos 18;
}

pub sample-IsRequest : IsRequest sample
sample-IsRequest command app = (refl, refl, refl, refl)

pub sample-IsAnswer : IsAnswer sample
sample-IsAnswer m rc = (refl, refl)
