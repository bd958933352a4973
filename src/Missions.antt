-- ===== src/Missions.antt =====
-- app/modules/missions: several missions on one account share its budget.
pub mod Budget
