-- ===== src/Billing/Catalog.antt =====
-- The plans that the server offers: defaultPlans and GetPriceCatalog of
-- backend/internal/billing/service.go.
use geo_querry.Prelude.{String, ◌||◌, Option, none, some, List, [], ◌∷◌, str_eq, filter, find}
use geo_querry.Billing.{Plan, Texts}

abbrev pub starter : Plan
starter = record {
  plan_id = "tier_starter";
  name = "Starter Prospector";
  description = "Essential tools for artisanal and junior exploration geologists.";
  amount_minor_units = 4900;
  currency = "USD";
  interval = "month";
  features =
      "Single Active Concession Boundary" ∷ "500 Outcrop Structural Stations"
      ∷ "Standard CSV & GeoJSON Export" ∷ "Community Forum Support" ∷ [];
}

abbrev pub pro : Plan
pro = record {
  plan_id = "tier_pro";
  name = "Professional Team";
  description = "Multi-geologist field campaigns with real-time sync and assays.";
  amount_minor_units = 14900;
  currency = "USD";
  interval = "month";
  features =
      "5 Concession Blocks & Mining Leases" ∷ "Unlimited Stations & Dip/Strike Measurements"
      ∷ "Cloudflare R2 Assays & Core Photo Storage" ∷ "Single-use Telemetry GPS Tracking"
      ∷ "Priority Assay Turnaround Logging" ∷ [];
}

abbrev pub enterprise : Plan
enterprise = record {
  plan_id = "tier_enterprise";
  name = "Enterprise Survey Tier";
  description = "Operating concessions, airborne geophysics & drill program management.";
  amount_minor_units = 49900;
  currency = "USD";
  interval = "month";
  features =
      "Unlimited Concessions & PostGIS Layers" ∷ "Sub-second Real-time Field Telemetry Stream"
      ∷ "Automated River Queue GIS Data Ingestion"
      ∷ "Custom Coordinate Reference System Reprojection"
      ∷ "Append-Only JORC / NI 43-101 Compliance Ledger" ∷ "24/7 Dedicated Exploration Support"
      ∷ [];
}

abbrev pub default_plans : List Plan
default_plans = starter ∷ pro ∷ enterprise ∷ []

-- GetPriceCatalog
unfoldable pub get_price_catalog : Texts → String → List Plan
get_price_catalog texts currency =
    let wanted = texts.upper (texts.trim currency) in
    filter (λ p. str_eq wanted "" || str_eq p.currency wanted) default_plans

-- the plan of an id; an id that no plan has is the enterprise plan's
abbrev pub plan_or_enterprise : Option Plan → Plan
plan_or_enterprise none = enterprise
plan_or_enterprise (some p) = p

abbrev pub plan_for : String → Plan
plan_for plan_id = plan_or_enterprise (find (λ p. str_eq p.plan_id plan_id) default_plans)
